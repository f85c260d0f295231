-- ===== src/Service/Handouts.antt =====
-- What the service's submissions and leases do to the stores.
use outbound_gpu_worker_pool.Base.{
  ℕ, ◌+◌, String, ◌≡◌, refl, inl, inr, Bool, ◌||◌, Option, none, some, List, [], ◌∷◌, Bool-cases,
  Option-cases, is_some, get,
}
use outbound_gpu_worker_pool.Contracts.{
  Result-cases, seconds, JobSubmission, JobRecord, WorkerRecord, WorkerIdentity,
}
use outbound_gpu_worker_pool.JobStore.{submit}
use outbound_gpu_worker_pool.JobStore.Evolution.{step, run, submits, leases, expires}
use outbound_gpu_worker_pool.JobStore.Calls.{Fresh}
use outbound_gpu_worker_pool.Registry.Bindings.{registry_run}
use outbound_gpu_worker_pool.Service.{Settings, Pool}
use outbound_gpu_worker_pool.Service.Leases.{
  is_draining_worker, effective_ids, is_nil, input_grants, call_of, grant_job, lease_effective,
  lease_to, lease_job,
}
use outbound_gpu_worker_pool.Service.Views.{submit_job}
use outbound_gpu_worker_pool.Service.Qualification.{unqualified_reason}
use outbound_gpu_worker_pool.Service.Admission.{approve, approved_enrollment}
use outbound_gpu_worker_pool.Assets.{create_output_upload_url}
use outbound_gpu_worker_pool.Service.Refinement.{untouched, one_call, Refines}

grant_job-keeps :
    (s : Settings) (i : WorkerIdentity) (secs : ℕ) (o : Option JobRecord) (pool : Pool)
    → ((grant_job s i secs o pool).1.jobs ≡ pool.jobs)
      × ((grant_job s i secs o pool).1.registry ≡ pool.registry)
unfolding grant_job
grant_job-keeps s i secs none pool = (refl, refl)
grant_job-keeps s i secs (some r) pool = elim (Option-cases r.claim_token) [
  | inl n ↦ rw (grant_job, n) (refl, refl)
  | inr (t, c) ↦
      elim (Result-cases (
        input_grants r.input_keys (s.clock pool.readings + seconds s.grant_ttl_seconds)
          pool.assets)) [
            | inr (e, q) ↦ rw (grant_job, c, q) (refl, refl)
            | inl (gs, q) ↦
                elim (Result-cases (create_output_upload_url r.output_key pool.assets)) [
                  | inr (e, u) ↦ rw (grant_job, c, q, u) (refl, refl)
                  | inl (url, u) ↦ rw (grant_job, c, q, u) (refl, refl)
                ]
          ]
]

lease_effective-Refines :
    (s : Settings) (i : WorkerIdentity) (w : WorkerRecord) (ids : List String) (secs : ℕ)
    (pool : Pool)
    → Refines s pool (lease_effective s i w ids secs pool).1
unfolding lease_effective run step registry_run
lease_effective-Refines s i w ids secs pool =
    let c = call_of i w ids secs in
    let k = grant_job-keeps s i secs _ _ in
    record {
      calls =
          (expires, s.clock pool.readings)
          ∷ (leases c (s.new_token pool.draws), s.clock (pool.readings + 1))
          ∷ [];
      fresh = (tt, (tt, tt));
      jobs = k.0;
      reports = [];
      registry = k.1;
    }

pub lease_job-Refines :
    (s : Settings) (i : WorkerIdentity) (asked : List String) (secs : Option ℕ) (pool : Pool)
    → Refines s pool (lease_job s i asked secs pool).1
unfolding lease_job approved_enrollment lease_to
lease_job-Refines s i asked secs pool =
    elim (Result-cases (approve s.lib s.enrollments i pool.registry)) [
      | inr (e, q) ↦ rw (lease_job, q) (untouched refl refl)
      | inl (x, q) ↦ elim (Option-cases (get i.worker_id pool.registry.workers)) [
        | inl n ↦ rw (lease_job, q, n) (untouched refl refl)
        | inr (w, n) ↦ elim (Bool-cases (barred w)) [
          | inl b ↦ rw (lease_job, q, n, lease_to, b) (untouched refl refl)
          | inr b ↦ rw (lease_job, q, n, lease_to, b) (lease_effective-Refines s i w _ _ pool)
        ]
      ]
    ]
  where
    barred : WorkerRecord → Bool
    barred w =
        is_draining_worker w.status
        || is_some (unqualified_reason s.profiles [] w.runtime_versions)
        || is_nil (effective_ids s.profiles w asked)

pub submit_job-Refines :
    (s : Settings) (x : JobSubmission) (pool : Pool)
    → Fresh (submits x) pool.jobs
    → Refines s pool (submit_job s x pool).1
unfolding submit_job step
submit_job-Refines s x pool fresh =
    elim (Option-cases
      (unqualified_reason s.profiles (x.capability_id ∷ []) x.requirements.runtime_versions)) [
        | inr (reason, q) ↦ rw (submit_job, q) (untouched refl refl)
        | inl q ↦ elim (Result-cases (submit s.lib x (s.clock pool.readings) pool.jobs).0) [
          | inr (e, a) ↦ rw (submit_job, q, a) (one_call (submits x) fresh refl refl)
          | inl (r, a) ↦ rw (submit_job, q, a) (one_call (submits x) fresh refl refl)
        ]
      ]
