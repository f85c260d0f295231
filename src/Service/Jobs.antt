-- ===== src/Service/Jobs.antt =====
-- The methods of `WorkerPoolService` on a leased job: `_owned_job`, `job_heartbeat`, `complete`,
-- `fail` and `release`.
use outbound_gpu_worker_pool.Base.{
  ℕ, ◌+◌, String, Bool, true, false, not, ◌||◌, Option, none, some, if◌then◌else◌, prefix, int_le,
  ℤ_eq, ℤ, pos, ◌==◌, ℕ_eq, String_eq, Option_eq, List_eq,
}
use outbound_gpu_worker_pool.Contracts.{
  Error, job_not_found, stale_lease, completion_rejected, Result, ok, err, max_audit_reason_length,
  seconds, Value, null, bool, int, str, dict, Fields, end, field, JobFailureCode, invalid_input,
  unsupported_operation, provider_unavailable, temporary_failure, JobRecord, job_heartbeat_event,
  job_completed, job_failed, job_released, completion_rejected_event, WorkerIdentity,
  OutputManifest,
}
use outbound_gpu_worker_pool.JobStore.{get_job, is_processing}
use outbound_gpu_worker_pool.JobStore.Settling.{
  heartbeat, complete, fail, release, Completion, Failure,
}
use outbound_gpu_worker_pool.Service.{
  ◌>>◌, ◌>>=◌, Action, return, raise, lift, fail_if, gets, read_clock, on_jobs, record_event,
  Settings,
}
use outbound_gpu_worker_pool.Service.Admission.{approved_enrollment}
use outbound_gpu_worker_pool.Service.Verification.{verify_output}

module _ (s : Settings) where
  abbrev pub owned : WorkerIdentity → String → Option JobRecord → Result JobRecord
  owned i job_id none = err (job_not_found job_id)
  owned i job_id (some r) =
      if not (r.leased_by == some i.worker_id) || not (is_processing r.status)
      then err (stale_lease job_id)
      else ok r

  unfoldable pub owned_job : WorkerIdentity → String → Action JobRecord
  unfolding approved_enrollment
  owned_job i job_id = do
    _ ← approved_enrollment s i
    found ← gets (λ p. get_job job_id p.jobs)
    lift (owned i job_id found)

  abbrev pub percent : Option ℕ → Value
  percent none = null
  percent (some n) = int (pos n)

  abbrev pub beat_owned : WorkerIdentity → String → JobRecord → String → Option ℕ → Action ℕ
  beat_owned i job_id r token progress = do
    accepted ← on_jobs s (λ now. heartbeat r.job_id token s.default_lease_seconds progress now)
    fail_if (not accepted) (stale_lease job_id)
    record_event s job_heartbeat_event (some i.worker_id) (some r.job_id)
        (field "progress_percent" (percent progress) end)
    now ← read_clock s
    return (now + seconds s.default_lease_seconds)

  unfoldable pub job_heartbeat : WorkerIdentity → String → String → Option ℕ → Action ℕ
  unfolding owned_job
  job_heartbeat i job_id token progress = do
    r ← owned_job i job_id
    beat_owned i job_id r token progress

  abbrev seed_value : Option ℤ → Value
  seed_value none = null
  seed_value (some n) = int n

  abbrev pub completion : OutputManifest → Completion
  completion m = record {
    content_type = m.content_type;
    sha256 = m.sha256;
    byte_length = m.byte_length;
    execution_metadata = field "model_id" (str m.model_id) (
        field "model_version" (str m.model_version) (
          field "plugin_id" (str m.plugin_id) (
            field "plugin_version" (str m.plugin_version)
              (field "seed" (seed_value m.seed) (field "diagnostics" (dict m.diagnostics) end)))));
  }

  -- `except CompletionRejected`: the job fails for good, and the error goes on.
  unfoldable pub rejected : WorkerIdentity → JobRecord → String → Error → Action (Unit {0})
  rejected i r token (completion_rejected reason) = do
    _ ← on_jobs s (λ now.
        fail r.job_id token
          (record {
            reason = reason;
            failure_code = invalid_input;
            failure_message = none;
            retryable = false;
          })
          now)
    record_event s completion_rejected_event (some i.worker_id) (some r.job_id)
        (field "reason" (str reason) end)
    raise (completion_rejected reason)
  rejected i r token e = raise e

  unfoldable pub accept_output :
      WorkerIdentity → String → JobRecord → String → OutputManifest → Action (Unit {0})
  accept_output i job_id r token m = do
    accepted ← on_jobs s (λ now. complete r.job_id token (completion m) now)
    fail_if (not accepted) (stale_lease job_id)
    record_event s job_completed (some i.worker_id) (some r.job_id) (
        field "byte_length" (int (pos m.byte_length)) (
          field "sha256" (str m.sha256) (
            field "plugin_id" (str m.plugin_id)
              (field "plugin_version" (str m.plugin_version) end))))

  unfoldable pub complete_job :
      WorkerIdentity → String → String → OutputManifest → Action (Unit {0})
  unfolding owned_job rejected accept_output
  complete_job i job_id token m = do
    r ← owned_job i job_id
    verdict ← gets (verify_output s r m)
    elim verdict [ err e ↦ rejected i r token e | ok _ ↦ accept_output i job_id r token m ]

  abbrev failure_code_text : JobFailureCode → String
  failure_code_text invalid_input = "invalid_input"
  failure_code_text unsupported_operation = "unsupported_operation"
  failure_code_text provider_unavailable = "provider_unavailable"
  failure_code_text temporary_failure = "temporary_failure"

  abbrev pub failure_detail : Failure → Fields → Fields
  failure_detail f rest = field "reason" (str (prefix max_audit_reason_length f.reason)) (
      field "retryable" (bool f.retryable)
        (field "failure_code" (str (failure_code_text f.failure_code)) rest))

  abbrev pub fail_owned :
      WorkerIdentity → String → JobRecord → String → Failure → Fields → Action (Unit {0})
  fail_owned i job_id r token f rest = do
    accepted ← on_jobs s (λ now. fail r.job_id token f now)
    fail_if (not accepted) (stale_lease job_id)
    record_event s job_failed (some i.worker_id) (some r.job_id) (failure_detail f rest)

  -- The arguments of a failure that `fail` passes on.
  abbrev pub reported : String → Bool → JobFailureCode → Failure
  reported reason retryable code = record {
    reason = reason;
    failure_code = code;
    failure_message = none;
    retryable = retryable;
  }

  unfoldable pub fail_job :
      WorkerIdentity → String → String → String → Bool → JobFailureCode → Action (Unit {0})
  unfolding owned_job
  fail_job i job_id token reason retryable code = do
    r ← owned_job i job_id
    fail_owned i job_id r token (reported reason retryable code) end

  abbrev pub release_owned :
      WorkerIdentity → String → JobRecord → String → String → Action (Unit {0})
  release_owned i job_id r token reason = do
    accepted ← on_jobs s (λ now. release r.job_id token reason now)
    fail_if (not accepted) (stale_lease job_id)
    record_event s job_released (some i.worker_id) (some r.job_id)
        (field "reason" (str (prefix max_audit_reason_length reason)) end)

  abbrev pub release_by :
      Bool → WorkerIdentity → String → JobRecord → String → String → Action (Unit {0})
  release_by true i job_id r token reason =
      fail_owned i job_id r token (reported reason true temporary_failure)
        (field "budget_exhausted" (bool true) end)
  release_by false i job_id r token reason = release_owned i job_id r token reason

  -- The job is requeued, or fails for good once its attempts are spent.
  unfoldable pub release_job : WorkerIdentity → String → String → String → Action (Unit {0})
  unfolding owned_job
  release_job i job_id token reason = do
    r ← owned_job i job_id
    release_by (int_le r.attempt_budget (pos r.attempts)) i job_id r token reason
