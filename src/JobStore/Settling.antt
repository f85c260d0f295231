-- ===== src/JobStore/Settling.antt =====
-- The methods of `MemoryJobStore` that a lease's holder calls, and its two sweeps over the store.
use outbound_gpu_worker_pool.Base.{
  ℕ, ◌+◌, String, Bool, true, false, not, ◌&&◌, Option, none, some, List, [], ◌∷◌, if◌then◌else◌,
  int_lt, ℤ_eq, pos, ◌==◌, ℕ_eq, String_eq, Option_eq, List_eq, Dict, get, put, values,
}
use outbound_gpu_worker_pool.Contracts.{
  attempt_budget_exhausted, seconds, Fields, JobStatus, queued, processing, completed, failed,
  JobFailureCode, temporary_failure, JobRecord, CapabilityQueueDepth, QueueDepth,
}
use outbound_gpu_worker_pool.JobStore.{is_open, is_processing, JobStore}
use outbound_gpu_worker_pool.JobStore.Leasing.{expired_by}

abbrev pub token_matches : Option String → String → Bool
token_matches none token = false
token_matches (some t) token = t == token

-- `_leased`: the record under a live pair of job id and claim token.
abbrev pub holds_lease : String → JobRecord → Bool
holds_lease token r = is_processing r.status && token_matches r.claim_token token

abbrev if_held : String → Option JobRecord → Option JobRecord
if_held token none = none
if_held token (some r) = if holds_lease token r then some r else none

unfoldable pub leased_job : String → String → JobStore → Option JobRecord
leased_job job_id token st = if_held token (get job_id st.records)

-- `_settled`
unfoldable pub settled : ℕ → JobRecord → JobRecord
settled now r = record r {
  claim_token = none;
  leased_by = none;
  lease_until = none;
  updated_at = now;
}

-- The write that the four methods share: none without a live lease.
abbrev pub settle_with :
    String → (JobRecord → JobRecord) → JobStore → Option JobRecord → Bool × JobStore
settle_with job_id f st none = (false, st)
settle_with job_id f st (some r) = (true, record { records = put job_id (f r) st.records })

abbrev new_progress : Option ℕ → Option ℕ → Option ℕ
new_progress none old = old
new_progress (some p) old = some p

unfoldable pub extended : ℕ → Option ℕ → ℕ → JobRecord → JobRecord
extended lease_seconds progress now r = record r {
  lease_until = some (now + seconds lease_seconds);
  progress_percent = new_progress progress r.progress_percent;
  updated_at = now;
}

unfoldable pub heartbeat : String → String → ℕ → Option ℕ → ℕ → JobStore → Bool × JobStore
unfolding leased_job
heartbeat job_id token lease_seconds progress now st =
    settle_with job_id (extended lease_seconds progress now) st (leased_job job_id token st)

-- The arguments of `complete`.
pub record Completion : Type 0 where
  pub content_type : String
  pub sha256 : String
  pub byte_length : ℕ
  pub execution_metadata : Fields

unfoldable pub completed_record : Completion → ℕ → JobRecord → JobRecord
unfolding settled
completed_record c now r = record (settled now r) {
  status = completed;
  executed_by = r.leased_by;
  execution_metadata = c.execution_metadata;
  output_content_type = some c.content_type;
  output_sha256 = some c.sha256;
  output_byte_length = some c.byte_length;
  error = none;
}

unfoldable pub complete : String → String → Completion → ℕ → JobStore → Bool × JobStore
unfolding leased_job
complete job_id token c now st =
    settle_with job_id (completed_record c now) st (leased_job job_id token st)

-- The arguments of `fail`.
pub record Failure : Type 0 where
  pub reason : String
  pub failure_code : JobFailureCode
  pub failure_message : Option String
  pub retryable : Bool

unfoldable pub failed_record : Failure → ℕ → JobRecord → JobRecord
unfolding settled
failed_record f now r = record (settled now r) {
  status = failed;
  error = some f.reason;
  failure_code = some f.failure_code;
  failure_message = f.failure_message;
  retryable = f.retryable;
}

unfoldable pub fail : String → String → Failure → ℕ → JobStore → Bool × JobStore
unfolding leased_job
fail job_id token f now st =
    settle_with job_id (failed_record f now) st (leased_job job_id token st)

unfoldable pub released_record : String → ℕ → JobRecord → JobRecord
unfolding settled
released_record reason now r = record (settled now r) { status = queued; error = some reason }

unfoldable pub release : String → String → String → ℕ → JobStore → Bool × JobStore
unfolding leased_job
release job_id token reason now st =
    settle_with job_id (released_record reason now) st (leased_job job_id token st)

-- `expire_exhausted` fails a job whose lease ran out with no attempt left.
unfoldable pub is_exhausted : ℕ → JobRecord → Bool
is_exhausted now r =
    is_processing r.status
    && expired_by r.lease_until now
    && not (int_lt (pos r.attempts) r.attempt_budget)

unfoldable pub exhausted_record : ℕ → JobRecord → JobRecord
unfolding settled
exhausted_record now r = record (settled now r) {
  status = failed;
  error = some attempt_budget_exhausted;
  failure_code = some temporary_failure;
  retryable = true;
}

-- The loop runs over a copy of the items and writes each back under its own key.
unfoldable pub expire_entries : ℕ → Dict JobRecord → ℕ × Dict JobRecord
unfolding is_exhausted
expire_entries now [] = (0, [])
expire_entries now ((k, r) ∷ d) =
    let (n, rest) = expire_entries now d in
    if is_exhausted now r then (n + 1, (k, exhausted_record now r) ∷ rest) else (n, (k, r) ∷ rest)

unfoldable pub expire_exhausted : ℕ → JobStore → ℕ × JobStore
unfolding expire_entries
expire_exhausted now st = let (n, d) = expire_entries now st.records in (n, record { records = d })

abbrev pub Depth : Type 0
Depth = CapabilityQueueDepth

abbrev pub no_jobs : Depth
no_jobs = record { queued_jobs = 0; processing_jobs = 0 }

-- `counts[key] += 1`
abbrev pub count_one : JobStatus → Depth → Depth
count_one queued d = record d { queued_jobs = d.queued_jobs + 1 }
count_one processing d = record d { processing_jobs = d.processing_jobs + 1 }
count_one _ d = d

abbrev pub or_no_jobs : Option Depth → Depth
or_no_jobs none = no_jobs
or_no_jobs (some d) = d

-- One round of the loop on the totals, and on the counts of the record's capability; a settled
-- job is skipped.
unfoldable pub note_total : JobStatus → Depth → Depth
note_total status totals = if is_open status then count_one status totals else totals

unfoldable pub note_capability : JobStatus → String → Dict Depth → Dict Depth
note_capability status capability by_capability =
    if is_open status
    then put capability (count_one status (or_no_jobs (get capability by_capability))) by_capability
    else by_capability

unfoldable pub count_records : List JobRecord → Depth → Dict Depth → Depth × Dict Depth
unfolding note_total note_capability
count_records [] totals by_capability = (totals, by_capability)
count_records (r ∷ rs) totals by_capability =
    count_records rs (note_total r.status totals)
      (note_capability r.status r.capability_id by_capability)

unfoldable pub queue_depth : JobStore → QueueDepth
unfolding count_records
queue_depth st =
    let (totals, by_capability) = count_records (values st.records) no_jobs [] in
    record {
      queued_jobs = totals.queued_jobs;
      processing_jobs = totals.processing_jobs;
      by_capability = by_capability;
      online_workers_by_capability = [];
    }
