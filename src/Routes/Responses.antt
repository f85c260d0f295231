-- ===== src/Routes/Responses.antt =====
-- The response bodies of routes.py.
use outbound_gpu_worker_pool.Base.{
  ℕ, String, Bool, Option, none, some, List, [], ◌∷◌, map, if◌then◌else◌, ℤ, Dict,
}
use outbound_gpu_worker_pool.Contracts.{
  capability_ids, Fields, CapabilityQueueDepth, QueueDepth, WorkerStatus, GpuTelemetry,
  WorkerRecord, PoolWorkerStatus, PoolWorkerView, AssetGrant, LeaseGrant,
}
use outbound_gpu_worker_pool.Routes.Requests.{valid_telemetry, from_telemetry, GpuTelemetryDto}

pub record WorkerRecordResponse : Type 0 where
  pub worker_id : String
  pub status : WorkerStatus
  pub capability_ids : List String
  pub server_time : ℕ

unfoldable pub record_response : WorkerRecord → WorkerRecordResponse
record_response w = record {
  worker_id = w.worker_id;
  status = w.status;
  capability_ids = capability_ids w;
  server_time = w.updated_at;
}

pub record AssetGrantResponse : Type 0 where
  pub key : String
  pub url : String
  pub method : String
  pub content_type : Option String
  pub expires_at : ℕ

unfoldable pub grant_response : AssetGrant → AssetGrantResponse
grant_response g = record {
  key = g.key;
  url = g.url;
  method = g.method;
  content_type = g.content_type;
  expires_at = g.expires_at;
}

pub record LeaseResponse : Type 0 where
  pub job_id : String
  pub claim_token : String
  pub lease_until : ℕ
  pub execution_deadline_seconds : ℤ
  pub capability_id : String
  pub contract_version : ℤ
  pub request_digest : String
  pub idempotency_key : String
  pub input_keys : List String
  pub output_key : String
  pub payload : Fields
  pub input_grants : List AssetGrantResponse
  pub output_grant : AssetGrantResponse

unfoldable pub lease_response : LeaseGrant → LeaseResponse
unfolding grant_response
lease_response g = record {
  job_id = g.job_id;
  claim_token = g.claim_token;
  lease_until = g.lease_until;
  execution_deadline_seconds = g.execution_deadline_seconds;
  capability_id = g.capability_id;
  contract_version = g.contract_version;
  request_digest = g.request_digest;
  idempotency_key = g.idempotency_key;
  input_keys = g.input_keys;
  output_key = g.output_key;
  payload = g.payload;
  input_grants = map grant_response g.input_grants;
  output_grant = grant_response g.output_grant;
}

pub record JobHeartbeatResponse : Type 0 where
  pub lease_until : ℕ

pub record SettleResponse : Type 0 where
  pub job_id : String
  pub status : String

pub record PoolWorkerResponse : Type 0 where
  pub gpu_model : Option String
  pub vram_mb : Option ℕ
  pub runtime_versions : Dict String
  pub worker_id : String
  pub status : PoolWorkerStatus
  pub last_heartbeat_at : Option ℕ
  pub capabilities : List String
  pub gpus : List GpuTelemetryDto
  pub busy_job_id : Option String
  pub draining : Bool
  pub tenant_id : Option String

-- `GpuTelemetryDto.from_telemetry` tests the fields again, and raises where one is out of bounds.
unfoldable pub telemetry_rows : List GpuTelemetry → Option (List GpuTelemetryDto)
unfolding from_telemetry valid_telemetry
telemetry_rows [] = some []
telemetry_rows (g ∷ gs) =
    let rest = telemetry_rows gs in
    if valid_telemetry (from_telemetry g)
    then elim rest [ none ↦ none | some rows ↦ some (from_telemetry g ∷ rows) ]
    else none

unfoldable pub worker_response : PoolWorkerView → Option PoolWorkerResponse
unfolding telemetry_rows
worker_response v = elim (telemetry_rows v.gpus) [
  | none ↦ none
  | some rows ↦ some (record {
    gpu_model = v.gpu_model;
    vram_mb = v.vram_mb;
    runtime_versions = v.runtime_versions;
    worker_id = v.worker_id;
    status = v.status;
    last_heartbeat_at = v.last_heartbeat_at;
    capabilities = v.capability_ids;
    gpus = rows;
    busy_job_id = v.busy_job_id;
    draining = v.is_draining;
    tenant_id = v.tenant_id;
  })
]

unfoldable pub worker_responses : List PoolWorkerView → Option (List PoolWorkerResponse)
unfolding worker_response
worker_responses [] = some []
worker_responses (v ∷ vs) = elim (worker_response v) [
  | none ↦ none
  | some row ↦ elim (worker_responses vs) [ none ↦ none | some rows ↦ some (row ∷ rows) ]
]

pub record CapabilityQueueDepthResponse : Type 0 where
  pub queued : ℕ
  pub processing : ℕ

pub record PoolQueueResponse : Type 0 where
  pub queued : ℕ
  pub processing : ℕ
  pub by_capability : Dict CapabilityQueueDepthResponse
  pub online_workers_by_capability : Dict ℕ

abbrev capability_depth : CapabilityQueueDepth → CapabilityQueueDepthResponse
capability_depth d = record { queued = d.queued_jobs; processing = d.processing_jobs }

abbrev capability_depths : Dict CapabilityQueueDepth → Dict CapabilityQueueDepthResponse
capability_depths [] = []
capability_depths ((c, d) ∷ ds) = (c, capability_depth d) ∷ capability_depths ds

unfoldable pub queue_response : QueueDepth → PoolQueueResponse
queue_response d = record {
  queued = d.queued_jobs;
  processing = d.processing_jobs;
  by_capability = capability_depths d.by_capability;
  online_workers_by_capability = d.online_workers_by_capability;
}
