-- ===== src/Agent/Completion.antt =====
-- The agent and the service together: what an outcome COMPLETED says of the pool.
use outbound_gpu_worker_pool.Base.{
  ℕ, ◌≡◌, refl, subst, inl, inr, Bool, true, false, ◌&&◌, List, arith, Bool-cases, length,
}
use outbound_gpu_worker_pool.Contracts.{
  Error, value_error, Result, ok, err, WorkerIdentity, LeaseGrant,
}
use outbound_gpu_worker_pool.Service.{Settings, Pool}
use outbound_gpu_worker_pool.Service.Authentication.{authenticate}
use outbound_gpu_worker_pool.Service.History.{Refines-PoolIsValid, PoolIsValid}
use outbound_gpu_worker_pool.Service.Jobs.{complete_job}
use outbound_gpu_worker_pool.Service.Publication.{complete_job-Published, Published}
use outbound_gpu_worker_pool.Routes.{status_of, mapped_error, refusal, Answer}
use outbound_gpu_worker_pool.Routes.Manifests.{to_manifest, valid_complete, CompleteRequest}
use outbound_gpu_worker_pool.Routes.Requests.{text_within, optional}
use outbound_gpu_worker_pool.Routes.Handlers.{
  max_authorization_length, respond, peer, settle_response, valid_job_id, admitted, worker_route,
  complete_route, Caller,
}
use outbound_gpu_worker_pool.Agent.{
  complete_call, completed_outcome, Call, HttpReply, Host, AgentState,
}
use outbound_gpu_worker_pool.Agent.Calls.{is_success}
use outbound_gpu_worker_pool.Agent.Jobs.{serve}
use outbound_gpu_worker_pool.Agent.Settled.{Completes, Settled}
use outbound_gpu_worker_pool.Agent.Outcomes.{serve-Settled}
use outbound_gpu_worker_pool.Service.Admissions.{authenticate-Refines}

refusal-fails : (A : Type 0) (e : Error) → is_success (status_of (refusal {A = A} e)) ≡ false
unfolding refusal mapped_error status_of
refusal-fails A (value_error m) = refl
refusal-fails A e = refl

refused-absurd :
    {X : Type 0} (A : Type 0) (e : Error) → is_success (status_of (refusal {A = A} e)) ≡ true → X
refused-absurd A e good = absurd (ground (arith, refusal-fails A e, good))

respond-answers :
    {A B : Type 0} (f : A → Answer B) (r : Result A) (p : Pool)
    → is_success (status_of (respond f (r, p)).0) ≡ true
    → (x : A) × (r ≡ ok x)
unfolding respond
respond-answers f (ok x) p good = (x, refl)
respond-answers {B = B} f (err e) p good = refused-absurd B e good

admitted-answers :
    {A B : Type 0} (s : Settings) (valid : Bool) (action : WorkerIdentity → Pool → Result A × Pool)
    (f : A → Answer B) (r : Result WorkerIdentity) (p : Pool)
    → is_success (status_of (admitted s valid action f (r, p)).0) ≡ true
    → (i : WorkerIdentity) × (r ≡ ok i) × ((x : A) × ((action i p).0 ≡ ok x))
unfolding admitted status_of
admitted-answers {B = B} s valid action f (err e) p good = refused-absurd B e good
admitted-answers s false action f (ok i) p good = absurd (ground (arith, good))
admitted-answers s true action f (ok i) p good =
    (i, refl, respond-answers f (action i p).0 (action i p).1 good)

worker_route-answers :
    {A B : Type 0} (s : Settings) (c : Caller) (valid : Bool)
    (action : WorkerIdentity → Pool → Result A × Pool) (f : A → Answer B) (p : Pool)
    → is_success (status_of (worker_route s c valid action f p).0) ≡ true
    → (i : WorkerIdentity) × ((authenticate s c.authorization (peer c.host) p).0 ≡ ok i)
      × ((x : A) × ((action i (authenticate s c.authorization (peer c.host) p).1).0 ≡ ok x))
unfolding worker_route status_of
worker_route-answers s c valid action f p good =
    elim (Bool-cases (optional (text_within 0 max_authorization_length) c.authorization)) [
      | inl e ↦
          let known = authenticate s c.authorization (peer c.host) p in
          admitted-answers s valid action f known.0 known.1 (rw (worker_route, e) at good)
      | inr e ↦ absurd (ground (arith, (rw (worker_route, e) at good)))
    ]

module _ (s : Settings) (c : Caller) (h : Host) (lease : LeaseGrant) where
  -- The agent's completions go to the route of the service, whose pool is `pools n` at the n-th
  -- request; an answer may be lost on its way back.
  abbrev pub IsCoordinator : (ℕ → Pool) → Type 0
  IsCoordinator pools =
      (n : ℕ) (q : CompleteRequest) (reply : HttpReply)
      → h.http n (complete_call lease.job_id q) ≡ ok reply
      → reply.status_code ≡ status_of (complete_route s c lease.job_id q (pools n)).0

  -- The pool once the credential of the completion has been checked.
  abbrev pub pool_after : (ℕ → Pool) → ℕ → Pool
  pool_after pools n = (authenticate s c.authorization (peer c.host) (pools n)).1

  -- A completion of the lease has been accepted.
  abbrev pub IsAccepted : (ℕ → Pool) → Type 0
  IsAccepted pools =
      (n : ℕ) × (i : WorkerIdentity) × (q : CompleteRequest) × ((authenticate s c.authorization
          (peer c.host) (pools n)).0
        ≡ ok i)
      × Published s i lease.job_id lease.claim_token (to_manifest q.manifest) (pool_after pools n) (
          complete_job s i lease.job_id lease.claim_token (to_manifest q.manifest)
            (pool_after pools n))

  Completes-Accepted :
      (pools : ℕ → Pool) (old calls : List Call)
      → ((n : ℕ) → PoolIsValid (pools n))
      → IsCoordinator pools
      → Completes h lease is_success old calls
      → IsAccepted pools
  unfolding complete_route
  Completes-Accepted pools old calls valid coordinates
        (before, q, reply, ends, token, answer, passed) =
      let n = length before in
      let good = subst (λ x. is_success x ≡ true) (coordinates n q reply answer) passed in
      let ran =
        worker_route-answers s c (valid_job_id lease.job_id && valid_complete s.lib q)
          (λ i. complete_job s i lease.job_id q.claim_token (to_manifest q.manifest))
          (settle_response lease.job_id "completed") (pools n) good in
      let known = authenticate-Refines s c.authorization (peer c.host) (pools n) in
      let keyed =
        (Refines-PoolIsValid s (pools n) (pool_after pools n) known (valid n)).jobs.keyed in
      let accepted =
        subst
          (λ t.
            (complete_job s ran.0 lease.job_id t (to_manifest q.manifest) (pool_after pools n)).0
            ≡ ok tt)
          token ran.2.1 in
      (
        n,
        ran.0,
        q,
        ran.1,
        complete_job-Published s ran.0 lease.job_id lease.claim_token (to_manifest q.manifest)
            (pool_after pools n) keyed accepted,
      )

  -- Where the agent's completions go to the complete route of the service, and every pool that they
  -- meet is valid, an outcome COMPLETED of the agent means that the service has accepted a completion
  -- of the leased job under the lease's token: it came from the lease's holder, the asset store held
  -- the output with the attested size and digest, and the job is completed with just that.
  pub serve-Accepted :
      (pools : ℕ → Pool) (a : AgentState)
      → ((n : ℕ) → PoolIsValid (pools n))
      → IsCoordinator pools
      → (serve h lease a).0 ≡ ok completed_outcome
      → IsAccepted pools
  serve-Accepted pools a valid coordinates happened =
      Completes-Accepted pools a.calls (serve h lease a).1.calls valid coordinates (
        subst (λ r. Settled h lease a.calls r (serve h lease a).1.calls) happened
          (serve-Settled h lease a))
