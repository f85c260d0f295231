-- ===== src/Agent/Calls.antt =====
-- The requests of the agent: `heartbeat`, `_sample_gpus`, `_reject`, `_fail`, `_release`.
use outbound_gpu_worker_pool.Base.{
  ℕ, String, Bool, false, ◌&&◌, Option, List, [], ◌∷◌, map, ltb, leb, if◌then◌else◌, length, prefix,
  pos, Dict, values,
}
use outbound_gpu_worker_pool.Contracts.{
  http_error, Result, ok, err, max_audit_reason_length, JobFailureCode, unsupported_operation,
  local_cost, WorkerCapability, GpuTelemetry, LeaseGrant,
}
use outbound_gpu_worker_pool.Routes.Requests.{
  WorkerCapabilityDto, GpuTelemetryDto, WorkerHeartbeatRequest, FailRequest, ReleaseRequest,
}
use outbound_gpu_worker_pool.Sampler.{sample}
use outbound_gpu_worker_pool.Agent.{
  ◌>>◌, ◌>>=◌, heartbeat_call, fail_call, release_call, Task, done, served_capabilities,
  AgentOutcome, released, rejected_outcome, Call, HttpReply, Host,
}

abbrev pub drain_release_reason : String
drain_release_reason = "draining"

-- `response.raise_for_status()`
abbrev pub is_success : ℕ → Bool
is_success status = leb 200 status && ltb status 300

unfoldable pub status_result : HttpReply → Result (Unit {0})
status_result r = if is_success r.status_code then ok tt else err (http_error "HTTPStatusError")

abbrev pub raise_for_status : HttpReply → Task (Unit {0})
raise_for_status r a = (status_result r, a)

abbrev pub capability_json : WorkerCapability → WorkerCapabilityDto
capability_json c = record {
  capability_id = c.capability_id;
  plugin_id = c.plugin_id;
  plugin_version = c.plugin_version;
  concurrency = pos c.concurrency;
}

unfoldable pub gpu_telemetry_json : GpuTelemetry → GpuTelemetryDto
gpu_telemetry_json g = record {
  index = g.index;
  name = g.name;
  utilization_pct = g.utilization_pct;
  memory_used_mb = g.memory_used_mb;
  memory_total_mb = g.memory_total_mb;
}

-- `except Exception: return ()`
abbrev gpus_or_none : Result (List GpuTelemetry) → List GpuTelemetry
gpus_or_none (ok gpus) = gpus
gpus_or_none (err e) = []

module _ (h : Host) where
  abbrev pub capabilities : Dict WorkerCapability
  unfolding served_capabilities
  capabilities = served_capabilities h.concurrency h.plugins []

  -- The request, its answer, and its place in the order of requests.
  abbrev pub post : Call → Task HttpReply
  post c a = (h.http (length a.calls) c, record a { calls = c ∷ a.calls })

  unfoldable pub sample_gpus : Task (List GpuTelemetry)
  unfolding sample
  sample_gpus a =
      let (r, g) = sample h.lib (h.machine (length a.calls)) a.sampler in
      (ok (gpus_or_none r), record a { sampler = g })

  -- The fields that the agent leaves out have their defaults.
  abbrev pub heartbeat_request : Bool → List GpuTelemetry → Option String → WorkerHeartbeatRequest
  heartbeat_request drains gpus job_id = record {
    worker_id = h.worker_id;
    capabilities = map capability_json (values capabilities);
    tenant_id = h.tenant_id;
    gpu_model = h.gpu_model;
    vram_mb = h.vram_mb;
    runtime_versions = h.runtime_versions;
    cost_class = local_cost;
    labels = [];
    active_leases = pos 0;
    draining = drains;
    gpus = map gpu_telemetry_json gpus;
    busy_job_id = job_id;
  }

  abbrev post_heartbeat : Bool → List GpuTelemetry → Task HttpReply
  post_heartbeat drains gpus a =
      post (heartbeat_call (heartbeat_request drains gpus a.busy_job_id)) a

  unfoldable pub heartbeat : Bool → Task (Unit {0})
  unfolding sample_gpus gpu_telemetry_json status_result
  heartbeat drains = do gpus ← sample_gpus; r ← post_heartbeat drains gpus; raise_for_status r

  abbrev pub fail_request : LeaseGrant → String → Bool → JobFailureCode → FailRequest
  fail_request lease reason retryable code = record {
    claim_token = lease.claim_token;
    reason = prefix max_audit_reason_length reason;
    retryable = retryable;
    failure_code = code;
  }

  -- The answer's status is not looked at.
  unfoldable pub fail : LeaseGrant → String → Bool → JobFailureCode → Task (Unit {0})
  fail lease reason retryable code = do
    _ ← post (fail_call lease.job_id (fail_request lease reason retryable code))
    done tt

  unfoldable pub reject : LeaseGrant → String → Task AgentOutcome
  unfolding fail
  reject lease reason = do fail lease reason false unsupported_operation; done rejected_outcome

  abbrev pub release_request : LeaseGrant → String → ReleaseRequest
  release_request lease reason = record {
    claim_token = lease.claim_token;
    reason = prefix max_audit_reason_length reason;
  }

  unfoldable pub release : LeaseGrant → String → Task AgentOutcome
  release lease reason = do
    _ ← post (release_call lease.job_id (release_request lease reason))
    done released
