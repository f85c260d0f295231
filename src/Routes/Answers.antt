-- ===== src/Routes/Answers.antt =====
-- Which statuses the routes of a leased job answer with: no exception leaves their handlers.
use outbound_gpu_worker_pool.Base.{
  ℕ, String, ◌≡◌, refl, inl, inr, Bool, true, false, ◌&&◌, List, [], ◌∷◌, arith, Bool-cases,
  contains, ℤ_eq, ℕ_eq, String_eq, Option_eq, List_eq,
}
use outbound_gpu_worker_pool.Contracts.{
  Error, worker_auth_error, worker_identity_mismatch, worker_tenant_mismatch, profile_not_qualified,
  rate_limited, worker_revoked, worker_mismatch, worker_not_registered, job_not_found, stale_lease,
  completion_rejected, Result, ok, err, WorkerIdentity,
}
use outbound_gpu_worker_pool.Registry.{WorkerRegistry}
use outbound_gpu_worker_pool.Service.{Action, Settings, Pool}
use outbound_gpu_worker_pool.Routes.{status_of, mapped_error, refusal, Answer}
use outbound_gpu_worker_pool.Service.Authentication.{authenticate}
use outbound_gpu_worker_pool.Routes.Raised.{
  IsMapped, IfRaised, HoldsEnrollments, IsSafe, fail_job-Safe, release_job-Safe, job_heartbeat-Safe,
}
use outbound_gpu_worker_pool.Routes.Handlers.{
  max_authorization_length, respond, peer, settle_response, beat_answer, valid_job_id, admitted,
  worker_route, job_heartbeat_route, fail_route, release_route, Caller,
}
use outbound_gpu_worker_pool.Routes.Requests.{
  text_within, optional, optional_part, valid_job_heartbeat, valid_fail, valid_release,
  JobHeartbeatRequest, FailRequest, ReleaseRequest,
}
use outbound_gpu_worker_pool.Service.Jobs.{job_heartbeat, fail_job, release_job}
use outbound_gpu_worker_pool.Routes.Authenticated.{RaisesAuthErrors, authenticate-Safe}

-- The statuses that a worker's client has to know.
abbrev pub worker_statuses : List ℕ
worker_statuses = 200 ∷ 401 ∷ 403 ∷ 404 ∷ 409 ∷ 422 ∷ 429 ∷ []

abbrev pub IsDocumented : {A : Type 0} → Answer A → Type 0
IsDocumented x = contains worker_statuses (status_of x) ≡ true

refusal-Documented : (A : Type 0) (e : Error) → IsMapped e → IsDocumented (refusal {A = A} e)
unfolding refusal mapped_error status_of
refusal-Documented A (completion_rejected reason) mapped = refl
refusal-Documented A (worker_auth_error m) mapped = refl
refusal-Documented A (worker_identity_mismatch m) mapped = refl
refusal-Documented A (worker_revoked m) mapped = refl
refusal-Documented A (rate_limited m) mapped = refl
refusal-Documented A (worker_tenant_mismatch m) mapped = refl
refusal-Documented A (worker_mismatch m) mapped = refl
refusal-Documented A (worker_not_registered m) mapped = refl
refusal-Documented A (job_not_found m) mapped = refl
refusal-Documented A (stale_lease m) mapped = refl
refusal-Documented A (profile_not_qualified m) mapped = refl
refusal-Documented A e mapped = absurd (ground (arith, mapped))

respond-Documented :
    {A B : Type 0} (f : A → Answer B) (r : Result A) (p : Pool)
    → IfRaised IsMapped r
    → ((a : A) → IsDocumented (f a))
    → IsDocumented (respond f (r, p)).0
unfolding respond
respond-Documented f (ok a) p known answers = answers a
respond-Documented f (err e) p known answers = refusal-Documented _ e known

module _ (s : Settings) (st : WorkerRegistry) (enrolls : HoldsEnrollments s st)
    (raises : RaisesAuthErrors s) where
  admitted-Documented :
      {A B : Type 0} (valid : Bool) (action : WorkerIdentity → Action A) (f : A → Answer B)
      (r : Result WorkerIdentity) (p : Pool)
      → IsSafe st (r, p)
      → ((i : WorkerIdentity) (p : Pool) → p.registry ≡ st → IsSafe st (action i p))
      → ((a : A) → IsDocumented (f a))
      → IsDocumented (admitted s valid action f (r, p)).0
  unfolding admitted status_of
  admitted-Documented valid action f (err e) p known safe answers = refusal-Documented _ e known.1
  admitted-Documented false action f (ok i) p known safe answers = refl
  admitted-Documented true action f (ok i) p known safe answers =
      respond-Documented f (action i p).0 (action i p).1 (safe i p known.0).1 answers

  worker_route-Documented :
      {A B : Type 0} (caller : Caller) (valid : Bool) (action : WorkerIdentity → Action A)
      (f : A → Answer B) (p : Pool)
      → p.registry ≡ st
      → ((i : WorkerIdentity) (p : Pool) → p.registry ≡ st → IsSafe st (action i p))
      → ((a : A) → IsDocumented (f a))
      → IsDocumented (worker_route s caller valid action f p).0
  unfolding worker_route status_of
  worker_route-Documented caller valid action f p same safe answers =
      elim (Bool-cases (optional (text_within 0 max_authorization_length) caller.authorization)) [
        | inl e ↦
            let known = authenticate s caller.authorization (peer caller.host) p in
            rw (worker_route, e)
              (admitted-Documented valid action f known.0 known.1
                (authenticate-Safe s st enrolls raises caller.authorization (peer caller.host) p
                  same)
                safe answers)
        | inr e ↦ rw (worker_route, e) refl
      ]

-- The requests of a worker on a leased job.
pub data JobRequest : Type 0 where
  beats_request : JobHeartbeatRequest → JobRequest
  fails_request : FailRequest → JobRequest
  releases_request : ReleaseRequest → JobRequest

-- Their routes.
abbrev pub IsAnswered : Settings → Caller → String → Pool → JobRequest → Type 0
IsAnswered s caller job_id p (beats_request q) =
    IsDocumented (job_heartbeat_route s caller job_id q p).0
IsAnswered s caller job_id p (fails_request q) = IsDocumented (fail_route s caller job_id q p).0
IsAnswered s caller job_id p (releases_request q) =
    IsDocumented (release_route s caller job_id q p).0

-- A worker that beats for, fails or releases a job gets the status 200, 401, 403, 404, 409, 422 or
-- 429, whatever its credential, the job and the request are: no exception of the service leaves the
-- handlers of these three routes. (The authenticator raises what its contract allows, and the rows
-- of the registry hold what an enrollment may hold.)
pub job_routes-Answered :
    (s : Settings) (caller : Caller) (job_id : String) (p : Pool) (q : JobRequest)
    → RaisesAuthErrors s
    → HoldsEnrollments s p.registry
    → IsAnswered s caller job_id p q
unfolding job_heartbeat_route fail_route release_route settle_response status_of
job_routes-Answered s caller job_id p (beats_request q) raises enrolls =
    worker_route-Documented s p.registry enrolls raises caller
      (valid_job_id job_id && valid_job_heartbeat q)
      (λ i. job_heartbeat s i job_id q.claim_token (optional_part q.progress_percent)) beat_answer p
      refl
      (λ i p1 same.
        job_heartbeat-Safe s p.registry enrolls i job_id q.claim_token
          (optional_part q.progress_percent) p1 same)
      (λ until. refl)
job_routes-Answered s caller job_id p (fails_request q) raises enrolls =
    worker_route-Documented s p.registry enrolls raises caller (valid_job_id job_id && valid_fail q)
      (λ i. fail_job s i job_id q.claim_token q.reason q.retryable q.failure_code)
      (settle_response job_id "failed") p refl
      (λ i p1 same.
        fail_job-Safe s p.registry enrolls i job_id q.claim_token q.reason q.retryable
          q.failure_code p1 same)
      (λ _. refl)
job_routes-Answered s caller job_id p (releases_request q) raises enrolls =
    worker_route-Documented s p.registry enrolls raises caller
      (valid_job_id job_id && valid_release q) (λ i. release_job s i job_id q.claim_token q.reason)
      (settle_response job_id "released") p refl
      (λ i p1 same. release_job-Safe s p.registry enrolls i job_id q.claim_token q.reason p1 same)
      (λ _. refl)
