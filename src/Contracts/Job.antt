-- ===== src/Contracts/Job.antt =====
-- The job types of contracts.py. A `datetime` is a number of microseconds.
use outbound_gpu_worker_pool.Base.{ℕ, String, Bool, Option, List, ℤ, Dict}
use outbound_gpu_worker_pool.Contracts.Values.{Fields}
use outbound_gpu_worker_pool.Contracts.Requirements.{JobRequirements}

pub data JobStatus : Type 0 where
  queued processing completed failed cancelled : JobStatus

pub data JobFailureCode : Type 0 where
  invalid_input unsupported_operation provider_unavailable temporary_failure : JobFailureCode

pub record JobSubmission : Type 0 where
  pub job_id : String
  pub idempotency_key : String
  pub capability_id : String
  pub input_keys : List String
  pub output_key : String
  pub contract_version : ℤ
  pub payload : Fields
  pub tenant_id : Option String
  pub requirements : JobRequirements
  pub priority : ℤ
  pub attempt_budget : ℤ
  pub execution_deadline_seconds : ℤ

pub record JobRecord : Type 0 where
  pub job_id : String
  pub idempotency_key : String
  pub capability_id : String
  pub status : JobStatus
  pub input_keys : List String
  pub output_key : String
  pub attempts : ℕ
  pub created_at : ℕ
  pub updated_at : ℕ
  pub contract_version : ℤ
  pub payload : Fields
  pub tenant_id : Option String
  pub requirements : JobRequirements
  pub priority : ℤ
  pub attempt_budget : ℤ
  pub execution_deadline_seconds : ℤ
  pub request_digest : String
  pub claim_token : Option String
  pub leased_by : Option String
  pub executed_by : Option String
  pub execution_metadata : Fields
  pub lease_until : Option ℕ
  pub output_content_type : Option String
  pub output_sha256 : Option String
  pub output_byte_length : Option ℕ
  pub error : Option String
  pub failure_code : Option JobFailureCode
  pub failure_message : Option String
  pub retryable : Bool
  pub progress_percent : Option ℕ
  pub cancelled_at : Option ℕ

pub record SubmissionResult : Type 0 where
  pub submitted : JobRecord
  pub created : Bool

pub record CapabilityQueueDepth : Type 0 where
  pub queued_jobs : ℕ
  pub processing_jobs : ℕ

pub record QueueDepth : Type 0 where
  pub queued_jobs : ℕ
  pub processing_jobs : ℕ
  pub by_capability : Dict CapabilityQueueDepth
  pub online_workers_by_capability : Dict ℕ
