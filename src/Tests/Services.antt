-- ===== src/Tests/Services.antt =====
-- The theorems on the service, the registry, the assets and the limiter at concrete states.
use outbound_gpu_worker_pool.Base.{
  ℕ, ◌+◌, ◌-◌, ◌*◌, ◌≤◌, ◌≡◌, refl, ◌⊎◌, none, some, List, [], ◌∷◌, arith, eq_iff, length,
  strip_prefix, partition, Dict, get, put,
}
use outbound_gpu_worker_pool.Contracts.{
  ok, as_payload, from_payload, JobRecord, draining, revoked, WorkerRegistration,
}
use outbound_gpu_worker_pool.Contracts.Requirements.RoundTrip.{from_payload-as_payload}
use outbound_gpu_worker_pool.Regex.{derivative, fullmatch}
use outbound_gpu_worker_pool.JobStore.{new_record, get_job}
use outbound_gpu_worker_pool.JobStore.Keyed.{Keyed}
use outbound_gpu_worker_pool.JobStore.Leasing.{
  satisfies_requirements, is_leasable, before, earliest, leased_record, is_candidate, lease,
}
use outbound_gpu_worker_pool.JobStore.Settling.{
  leased_job, complete, is_exhausted, expire_entries, expire_exhausted,
}
use outbound_gpu_worker_pool.Registry.{
  next_status, registered_record, insert_text, sort_texts, with_status,
}
use outbound_gpu_worker_pool.Registry.Bindings.{
  registry_run, registry_run-RegistryIsValid, RegistryCall, reports, marks, RegistryIsValid,
}
use outbound_gpu_worker_pool.Registry.Revocation.{
  StillBound, registry_run-StillBound, Unmarked, RevokedAt, registry_run-RevokedAt,
}
use outbound_gpu_worker_pool.Assets.{
  has_prefix, require_prefix, create_read_url, create_output_upload_url, describe, read,
  read_limited, AssetTransfer,
}
use outbound_gpu_worker_pool.Assets.Publishing.{writes, writes-keeps}
use outbound_gpu_worker_pool.RateLimiter.{one_token}
use outbound_gpu_worker_pool.RateLimiter.Capacity.{after_calls-length}
use outbound_gpu_worker_pool.Enrollment.{
  is_worker_id, new_enrollment, check_enrollments, validate_enrollments, WorkerEnrollment,
}
use outbound_gpu_worker_pool.Enrollment.Subjects.{Separate, validate_enrollments-Separate}
use outbound_gpu_worker_pool.Auth.{worker_id_from_account}
use outbound_gpu_worker_pool.Auth.Accounts.{worker_id_from_account-NamesWorker, NamesWorker}
use outbound_gpu_worker_pool.Service.Qualification.{
  names_refused, unqualified_reason, first_recipe, pinned_recipe,
}
use outbound_gpu_worker_pool.Service.Admission.{
  approve_known, approve_new, approve, approved_enrollment,
}
use outbound_gpu_worker_pool.Service.Jobs.{owned_job, accept_output, complete_job}
use outbound_gpu_worker_pool.Service.Leases.{
  effective_ids, input_grants, grant_job, lease_effective, lease_to, lease_job,
}
use outbound_gpu_worker_pool.Service.Grants.{lease_job-Granted, Granted}
use outbound_gpu_worker_pool.Service.Ownership.{perform, perform-Owns, Owns, Rejects, hand_back}
use outbound_gpu_worker_pool.Service.Publication.{complete_job-Published, Published}
use outbound_gpu_worker_pool.Tests.Samples.{any_worker, waiting, one_waiting}
use outbound_gpu_worker_pool.Tests.Pools.{
  caller, report, worker_row, one_worker, revoked_worker, storage, open_limiter, settings,
  idle_pool, leased_upscale, busy_pool, manifest, grant,
}
use outbound_gpu_worker_pool.RateLimiter.Window.{after_calls, allowed_calls, allowed_calls-le}
use outbound_gpu_worker_pool.Service.Verification.{
  verify_recipe, verify_echo, verify_bytes, verify_output,
}

busy_pool-Keyed : Keyed busy_pool.jobs.records
unfolding busy_pool leased_upscale leased_record waiting new_record
busy_pool-Keyed = (refl, tt, tt)

perform-Owns_example :
    ((r : JobRecord) × Owns settings caller "job-1" "token-1" busy_pool r)
    ⊎ Rejects busy_pool (perform settings caller "job-1" "token-1" (hand_back "full") busy_pool)
perform-Owns_example =
    perform-Owns settings caller "job-1" "token-1" (hand_back "full") busy_pool busy_pool-Keyed

completes : (complete_job settings caller "job-1" "token-1" manifest busy_pool).0 ≡ ok tt
unfolding complete_job owned_job approved_enrollment approve approve_known approve_new
    new_enrollment verify_output verify_recipe verify_echo verify_bytes unqualified_reason
    names_refused pinned_recipe first_recipe sort_texts describe read_limited read accept_output
    complete leased_job busy_pool leased_upscale leased_record waiting new_record one_worker
    worker_row registered_record get get_job strip_prefix partition next_status insert_text
completes = refl

complete_job-Published_example :
    Published settings caller "job-1" "token-1" manifest busy_pool
      (complete_job settings caller "job-1" "token-1" manifest busy_pool)
complete_job-Published_example =
    complete_job-Published settings caller "job-1" "token-1" manifest busy_pool busy_pool-Keyed
      completes

leases_one :
    (lease_job settings caller ("image.upscale.v1" ∷ []) none idle_pool).0 ≡ ok (some grant)
unfolding lease_job approved_enrollment approve approve_known approve_new new_enrollment lease_to
    effective_ids lease_effective grant_job input_grants create_read_url create_output_upload_url
    require_prefix has_prefix unqualified_reason names_refused expire_exhausted expire_entries
    is_exhausted lease is_candidate satisfies_requirements is_leasable earliest before leased_record
    idle_pool one_waiting waiting new_record one_worker worker_row registered_record get put
    strip_prefix partition next_status
leases_one = refl

lease_job-Granted_example :
    Granted settings caller
      ("image.upscale.v1" ∷ [])
      none
      idle_pool
      grant
      (lease_job settings caller ("image.upscale.v1" ∷ []) none idle_pool).1
lease_job-Granted_example =
    lease_job-Granted settings caller ("image.upscale.v1" ∷ []) none idle_pool grant leases_one

other_report : WorkerRegistration
other_report = record report { worker_id = "worker-2" }

reports_only : List (RegistryCall × ℕ)
unfolding other_report
reports_only =
    (reports report "static:worker-1", 700)
    ∷ (reports other_report "static:worker-1", 800)
    ∷ (marks "worker-2" draining, 900)
    ∷ []

pub no_workers-RegistryIsValid : RegistryIsValid (record { workers = [] })
unfolding get
no_workers-RegistryIsValid = record { named = λ k w h. cc; separate = λ k j w v h i q. cc }

registry_run-RegistryIsValid_example :
    RegistryIsValid (registry_run reports_only (record { workers = [] }))
registry_run-RegistryIsValid_example =
    registry_run-RegistryIsValid reports_only (record { workers = [] }) no_workers-RegistryIsValid

get-one_worker : get "worker-1" one_worker.workers ≡ some worker_row
unfolding get one_worker
get-one_worker = refl

registry_run-StillBound_example :
    StillBound worker_row (get "worker-1" (registry_run reports_only one_worker).workers)
registry_run-StillBound_example =
    registry_run-StillBound reports_only one_worker "worker-1" worker_row get-one_worker

reports_only-Unmarked : Unmarked "worker-1" reports_only
unfolding reports_only
reports_only-Unmarked = (λ q. ground (arith, eq_iff "worker-2" "worker-1"), tt)

revoked_worker-RevokedAt : RevokedAt "worker-1" revoked_worker
unfolding get revoked_worker with_status
revoked_worker-RevokedAt = (with_status revoked 600 worker_row, refl, refl)

registry_run-RevokedAt_example : RevokedAt "worker-1" (registry_run reports_only revoked_worker)
registry_run-RevokedAt_example =
    registry_run-RevokedAt reports_only revoked_worker "worker-1" reports_only-Unmarked
      revoked_worker-RevokedAt

writes-keeps_example :
    get "in/a.png" (writes (("in/a.png", 9 ∷ [], "text/plain") ∷ []) storage).assets
    ≡ some (1 ∷ 2 ∷ [])
unfolding get
writes-keeps_example =
    writes-keeps (("in/a.png", 9 ∷ [], "text/plain") ∷ []) storage "in/a.png" (1 ∷ 2 ∷ []) refl

moves : AssetTransfer
moves = record { store = storage; downloads = []; uploads = [] }

enrolled_pair : Dict WorkerEnrollment
enrolled_pair =
    ("worker-1", record { identity_subject = "static:worker-1"; tenant_id = some "acme" })
    ∷ ("worker-2", record { identity_subject = "static:worker-2"; tenant_id = none })
    ∷ []

validate_enrollments-Separate_example : (enrolled_pair ≡ enrolled_pair) × Separate [] enrolled_pair
unfolding validate_enrollments check_enrollments is_worker_id fullmatch derivative enrolled_pair
validate_enrollments-Separate_example =
    validate_enrollments-Separate enrolled_pair enrolled_pair refl

allowed_calls-le_example :
    allowed_calls "a" (("a", 5) ∷ ("b", 6) ∷ ("a", 7) ∷ ("a", 8) ∷ []) open_limiter * one_token
    ≤ 2 * one_token + (8 - 5) * 2
allowed_calls-le_example =
    allowed_calls-le "a" (("a", 5) ∷ ("b", 6) ∷ ("a", 7) ∷ ("a", 8) ∷ []) 5 open_limiter
      (omega arith, (omega arith, (omega arith, (omega arith, tt)))) tt

after_calls-length_example :
    length (after_calls (("a", 5) ∷ ("b", 6) ∷ ("c", 7) ∷ []) open_limiter).buckets
    ≤ (after_calls (("a", 5) ∷ ("b", 6) ∷ ("c", 7) ∷ []) open_limiter).max_keys
after_calls-length_example =
    after_calls-length (("a", 5) ∷ ("b", 6) ∷ ("c", 7) ∷ []) open_limiter (omega arith)

worker_id_from_account-NamesWorker_example :
    NamesWorker "gpu-worker-" "gpu-worker-a1@pool.iam.gserviceaccount.com" "a1"
unfolding worker_id_from_account partition strip_prefix is_worker_id fullmatch derivative
worker_id_from_account-NamesWorker_example =
    worker_id_from_account-NamesWorker "gpu-worker-a1@pool.iam.gserviceaccount.com" "gpu-worker-"
      "a1" refl

from_payload-as_payload_example :
    from_payload (λ v. "value") (as_payload any_worker) ≡ ok any_worker
from_payload-as_payload_example = from_payload-as_payload (λ v. "value") any_worker
