-- ===== src/JobStore.antt =====
-- `MemoryJobStore` of memory.py. Each call reads the clock once, `now`, in microseconds; the token
-- that `uuid4` draws is an argument. A method returns its result and the new store.
pub mod Leasing
pub mod Settling
pub mod Lifecycle
pub mod Keyed
pub mod Selection
pub mod Sweep
pub mod Evolution
pub mod Calls
pub mod History
pub mod Requests
pub mod Fencing
pub mod Idempotency
pub mod Replay
pub mod Depth
use outbound_gpu_worker_pool.Base.{
  ℕ, String, Bool, true, false, ◌&&◌, Option, none, some, List, [], ◌∷◌, nat_eq, if◌then◌else◌,
  length, filter, ℤ_eq, ◌==◌, ℕ_eq, String_eq, Option_eq, List_eq, Dict, get, put, values,
}
use outbound_gpu_worker_pool.Contracts.{
  idempotency_conflict, Result, ok, err, value_eq, dict, end, JobRequirements, JobStatus, queued,
  processing, cancelled, JobSubmission, JobRecord, SubmissionResult,
}
use outbound_gpu_worker_pool.Stdlib.{Stdlib}
use outbound_gpu_worker_pool.Validation.{validate_job_submission, job_request_digest}

pub record JobStore : Type 0 where
  pub records : Dict JobRecord

-- A dict's `==` with text values: the order of the keys does not count.
abbrev has_entry : Dict String → String → String → Bool
has_entry d k v = get k d == some v

abbrev all_entries : Dict String → Dict String → Bool
all_entries [] d = true
all_entries ((k, v) ∷ r) d = has_entry d k v && all_entries r d

abbrev versions_eq : Dict String → Dict String → Bool
versions_eq a b = nat_eq (length a) (length b) && all_entries a b

unfoldable pub requirements_eq : JobRequirements → JobRequirements → Bool
requirements_eq a b =
    a.min_vram_mb == b.min_vram_mb
    && a.gpu_models == b.gpu_models
    && a.labels == b.labels
    && a.worker_ids == b.worker_ids
    && versions_eq a.runtime_versions b.runtime_versions

unfoldable pub replays : JobRecord → JobSubmission → Bool
unfolding requirements_eq
replays r s =
    r.capability_id == s.capability_id
    && r.contract_version == s.contract_version
    && r.input_keys == s.input_keys
    && r.output_key == s.output_key
    && value_eq (dict r.payload) (dict s.payload)
    && r.tenant_id == s.tenant_id
    && requirements_eq r.requirements s.requirements
    && r.priority == s.priority
    && r.attempt_budget == s.attempt_budget
    && r.execution_deadline_seconds == s.execution_deadline_seconds

unfoldable pub new_record : JobSubmission → String → ℕ → JobRecord
new_record s digest now = record {
  job_id = s.job_id;
  idempotency_key = s.idempotency_key;
  capability_id = s.capability_id;
  status = queued;
  input_keys = s.input_keys;
  output_key = s.output_key;
  attempts = 0;
  created_at = now;
  updated_at = now;
  contract_version = s.contract_version;
  payload = s.payload;
  tenant_id = s.tenant_id;
  requirements = s.requirements;
  priority = s.priority;
  attempt_budget = s.attempt_budget;
  execution_deadline_seconds = s.execution_deadline_seconds;
  request_digest = digest;
  claim_token = none;
  leased_by = none;
  executed_by = none;
  execution_metadata = end;
  lease_until = none;
  output_content_type = none;
  output_sha256 = none;
  output_byte_length = none;
  error = none;
  failure_code = none;
  failure_message = none;
  retryable = false;
  progress_percent = none;
  cancelled_at = none;
}

unfoldable pub find_idempotent : String → List JobRecord → Option JobRecord
find_idempotent k [] = none
find_idempotent k (r ∷ rs) = if r.idempotency_key == k then some r else find_idempotent k rs

abbrev pub Answer : Type 0 → Type 0
Answer A = Result A × JobStore

abbrev store_record : JobRecord → JobStore → JobStore
store_record r st = record { records = put r.job_id r st.records }

-- A known idempotency key: a replay, or a conflict.
unfoldable pub replay : JobSubmission → JobRecord → Result SubmissionResult
replay s r =
    if replays r s
    then ok (record { submitted = r; created = false })
    else err (idempotency_conflict s.idempotency_key)

abbrev create : JobSubmission → ℕ → Result String → JobStore → Answer SubmissionResult
create s now (err e) st = (err e, st)
create s now (ok digest) st =
    let r = new_record s digest now in
    (ok (record { submitted = r; created = true }), store_record r st)

module _ (lib : Stdlib) where
  unfoldable pub submit_valid : JobSubmission → ℕ → JobStore → Answer SubmissionResult
  unfolding find_idempotent
  submit_valid s now st = elim (find_idempotent s.idempotency_key (values st.records)) [
    | some r ↦ (replay s r, st)
    | none ↦ create s now (job_request_digest lib s) st
  ]

  unfoldable pub submit : JobSubmission → ℕ → JobStore → Answer SubmissionResult
  unfolding submit_valid
  submit s now st = elim (validate_job_submission lib s) [
    | err e ↦ (err e, st)
    | ok _ ↦ submit_valid s now st
  ]

unfoldable pub get_job : String → JobStore → Option JobRecord
get_job job_id st = get job_id st.records

unfoldable pub list_for_tenant : String → JobStore → List JobRecord
list_for_tenant tenant st = filter (λ r. r.tenant_id == some tenant) (values st.records)

-- The two statuses of a job that is not settled.
abbrev pub is_open : JobStatus → Bool
is_open queued = true
is_open processing = true
is_open _ = false

abbrev pub is_processing : JobStatus → Bool
is_processing processing = true
is_processing _ = false

abbrev pub is_queued : JobStatus → Bool
is_queued queued = true
is_queued _ = false

unfoldable pub cancelled_record : ℕ → JobRecord → JobRecord
cancelled_record now r = record r {
  status = cancelled;
  cancelled_at = some now;
  updated_at = now;
  claim_token = none;
  leased_by = none;
  lease_until = none;
}

abbrev cancel_found : String → ℕ → JobStore → Option JobRecord → Bool × JobStore
cancel_found job_id now st none = (false, st)
cancel_found job_id now st (some r) =
    if is_open r.status
    then (true, record { records = put job_id (cancelled_record now r) st.records })
    else (false, st)

unfoldable pub cancel : String → ℕ → JobStore → Bool × JobStore
unfolding cancelled_record
cancel job_id now st = cancel_found job_id now st (get job_id st.records)
