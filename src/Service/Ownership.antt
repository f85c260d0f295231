-- ===== src/Service/Ownership.antt =====
-- Who may settle a job through the service.
use outbound_gpu_worker_pool.Base.{
  ℕ, String, ◌≡◌, refl, sym, ap, ◌∙◌, ◌⊎◌, inl, inr, Bool, Option, none, some, Bool-cases,
  Option-cases, int_le, ℤ_eq, pos, ◌==◌, ℕ_eq, String_eq, option_beq_iff, Option_eq, List_eq, get,
}
use outbound_gpu_worker_pool.Contracts.{
  Result-cases, Error, job_not_found, stale_lease, completion_rejected, Result, ok, err, processing,
  JobFailureCode, JobRecord, WorkerIdentity, OutputManifest,
}
use outbound_gpu_worker_pool.JobStore.{get_job, is_processing}
use outbound_gpu_worker_pool.JobStore.Settling.{leased_job, heartbeat, complete, fail, release}
use outbound_gpu_worker_pool.JobStore.Keyed.{Keyed, get-job_id}
use outbound_gpu_worker_pool.JobStore.Evolution.{Held, leased_job-cases}
use outbound_gpu_worker_pool.Audit.{AuditLog}
use outbound_gpu_worker_pool.Enrollment.{WorkerEnrollment}
use outbound_gpu_worker_pool.Service.{Action, Settings, Pool}
use outbound_gpu_worker_pool.Service.Admission.{approve, approved_enrollment}
use outbound_gpu_worker_pool.Service.Jobs.{
  owned_job, job_heartbeat, rejected, accept_output, complete_job, fail_job, release_job,
}
use outbound_gpu_worker_pool.Service.Verification.{verify_output}
use outbound_gpu_worker_pool.JobStore.Lifecycle.{is_processing→eq}

-- The caller's identity is approved, and the job is leased to its worker under the token.
pub record Owns (s : Settings) (i : WorkerIdentity) (job_id token : String) (p : Pool)
    (job : JobRecord) : Type 0 where
  pub stored : get job_id p.jobs.records ≡ some job
  pub processed : job.status ≡ processing
  pub leased_by : job.leased_by ≡ some i.worker_id
  pub claim_token : job.claim_token ≡ some token
  pub enrollment : WorkerEnrollment
  pub approved : approve s.lib s.enrollments i p.registry ≡ ok enrollment

-- The call raised, and wrote no job, worker or asset.
pub record Rejects {A : Type 0} (p : Pool) (a : Result A × Pool) : Type 0 where
  pub error : Error
  pub raised : a.0 ≡ err error
  pub jobs : a.1.jobs ≡ p.jobs
  pub registry : a.1.registry ≡ p.registry
  pub assets : a.1.assets ≡ p.assets

-- What `_owned_job` returns.
pub record Found (s : Settings) (i : WorkerIdentity) (job_id : String) (p : Pool) (r : JobRecord)
    : Type 0 where
  pub returned : owned_job s i job_id p ≡ (ok r, p)
  pub stored : get job_id p.jobs.records ≡ some r
  pub processed : r.status ≡ processing
  pub leased_by : r.leased_by ≡ some i.worker_id
  pub enrollment : WorkerEnrollment
  pub approved : approve s.lib s.enrollments i p.registry ≡ ok enrollment

pub owned_job-cases :
    (s : Settings) (i : WorkerIdentity) (job_id : String) (p : Pool)
    → ((e : Error) × (owned_job s i job_id p ≡ (err e, p)))
      ⊎ ((r : JobRecord) × Found s i job_id p r)
unfolding owned_job approved_enrollment get_job
owned_job-cases s i job_id p = elim (Result-cases (approve s.lib s.enrollments i p.registry)) [
  | inr (e, q) ↦ inl (e, rw q refl)
  | inl (a, q) ↦ elim (Option-cases (get job_id p.jobs.records)) [
    | inl n ↦ inl (job_not_found job_id, rw (q, n) refl)
    | inr (r, g) ↦ elim (Bool-cases (r.leased_by == some i.worker_id)) [
      | inr l ↦ inl (stale_lease job_id, rw (q, g, l) refl)
      | inl l ↦ elim (Bool-cases (is_processing r.status)) [
        | inr u ↦ inl (stale_lease job_id, rw (q, g, l, u) refl)
        | inl u ↦ inr (
          r,
          record {
            returned = rw (q, g, l, u) refl;
            stored = g;
            processed = is_processing→eq r.status u;
            leased_by = (option_beq_iff r.leased_by (some i.worker_id)).0 l;
            enrollment = a;
            approved = q;
          },
        )
      ]
    ]
  ]
]

pub Found-Owns :
    {s : Settings} {i : WorkerIdentity} {job_id token : String} {p : Pool} {r : JobRecord}
    → Found s i job_id p r
    → Held job_id token p.jobs
    → Owns s i job_id token p r
Found-Owns {r = r} f (x, e, g, u, c) = record {
  stored = f.stored;
  processed = f.processed;
  leased_by = f.leased_by;
  claim_token =
      ap (λ (o : Option JobRecord). elim o [ none ↦ c' | some y ↦ y.claim_token ])
        (sym f.stored ∙ g)
      ∙ c;
  enrollment = f.enrollment;
  approved = f.approved;
}
  where
    c' : Option String
    c' = none

refused :
    {A : Type 0} {p : Pool} (e : Error) (log : AuditLog) (n : ℕ)
    → Rejects {A = A} p (err e, record p { audit = log; readings = n })
refused e log n = record { error = e; raised = refl; jobs = refl; registry = refl; assets = refl }

-- What the holder of a lease may ask for.
pub data Work : Type 0 where
  beat : Option ℕ → Work
  finish : OutputManifest → Work
  give_up : String → Bool → JobFailureCode → Work
  hand_back : String → Work

abbrev pub done : {A : Type 0} → Result A × Pool → Result (Unit {0}) × Pool
done (ok a, p) = (ok tt, p)
done (err e, p) = (err e, p)

unfoldable pub perform : Settings → WorkerIdentity → String → String → Work → Action (Unit {0})
unfolding job_heartbeat complete_job fail_job release_job
perform s i job_id token (beat progress) p = done (job_heartbeat s i job_id token progress p)
perform s i job_id token (finish m) p = complete_job s i job_id token m p
perform s i job_id token (give_up reason retryable code) p =
    fail_job s i job_id token reason retryable code p
perform s i job_id token (hand_back reason) p = release_job s i job_id token reason p

-- With no lease under the token, the store's four methods change nothing, so the call raises.
pub stale :
    (s : Settings) (i : WorkerIdentity) (job_id token : String) (w : Work) (p : Pool)
    (r : JobRecord)
    → owned_job s i job_id p ≡ (ok r, p)
    → r.job_id ≡ job_id
    → leased_job job_id token p.jobs ≡ none
    → Rejects p (perform s i job_id token w p)
unfolding perform job_heartbeat heartbeat complete_job accept_output complete fail_job release_job
    fail release rejected
stale s i job_id token (beat progress) p r q k n =
    rw (perform, job_heartbeat, q, k, heartbeat, n) (refused (stale_lease job_id) p.audit _)
stale s i job_id token (give_up reason retryable code) p r q k n =
    rw (perform, fail_job, q, k, fail, n) (refused (stale_lease job_id) p.audit _)
stale s i job_id token (hand_back reason) p r q k n =
    elim (Bool-cases (int_le r.attempt_budget (pos r.attempts))) [
      | inl b ↦ rw (perform, release_job, q, b, k, fail, n) (refused (stale_lease job_id) p.audit _)
      | inr b ↦
          rw (perform, release_job, q, b, k, release, n) (refused (stale_lease job_id) p.audit _)
    ]
stale s i job_id token (finish m) p r q k n = elim (Result-cases (verify_output s r m p)) [
  | inl (a, v) ↦
      rw (perform, complete_job, q, v, accept_output, k, complete, n)
        (refused (stale_lease job_id) p.audit _)
  | inr (e, v) ↦ rw (perform, complete_job, q, v) (stale_rejection e)
]
  where
    stale_rejection : (e : Error) → Rejects p (rejected s i r token e p)
    stale_rejection (completion_rejected reason) =
        rw (rejected, k, fail, n) (refused (completion_rejected reason) _ _)
    stale_rejection e = refused e p.audit p.readings

-- A heartbeat, completion, failure or release through the service either comes from an approved
-- identity whose worker holds the job's lease under the very token that it shows, or raises and
-- writes no job, worker or asset. (The job store is keyed by the ids of its jobs.)
pub perform-Owns :
    (s : Settings) (i : WorkerIdentity) (job_id token : String) (w : Work) (p : Pool)
    → Keyed p.jobs.records
    → ((r : JobRecord) × Owns s i job_id token p r) ⊎ Rejects p (perform s i job_id token w p)
unfolding perform job_heartbeat complete_job fail_job release_job
perform-Owns s i job_id token w p h = elim (owned_job-cases s i job_id p) [
  | inl (e, q) ↦ inr (unowned w e q)
  | inr (r, f) ↦ elim (leased_job-cases job_id token p.jobs) [
    | inr held ↦ inl (r, Found-Owns f held)
    | inl n ↦
        inr (
          stale s i job_id token w p r f.returned (get-job_id job_id r p.jobs.records h f.stored) n)
  ]
]
  where
    unowned :
        (v : Work) (e : Error)
        → owned_job s i job_id p ≡ (err e, p)
        → Rejects p (perform s i job_id token v p)
    unowned (beat progress) e q = rw (perform, job_heartbeat, q) (refused e p.audit p.readings)
    unowned (finish m) e q = rw (perform, complete_job, q) (refused e p.audit p.readings)
    unowned (give_up reason retryable code) e q =
        rw (perform, fail_job, q) (refused e p.audit p.readings)
    unowned (hand_back reason) e q = rw (perform, release_job, q) (refused e p.audit p.readings)
