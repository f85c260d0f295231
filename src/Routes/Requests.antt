-- ===== src/Routes/Requests.antt =====
-- The request bodies of routes.py, with the test that each model makes of its fields, and what the
-- service is given of them. A body has its fields and no other; `None` stands for a field left out.
use outbound_gpu_worker_pool.Base.{
  ℕ, String, Bool, true, false, ◌&&◌, Option, none, some, List, map, leb, length, all, codes, len,
  pos_part, int_le, ℤ, pos, Dict,
}
use outbound_gpu_worker_pool.Contracts.{
  Result, ok, err, max_job_id_length, max_capability_id_length, max_tenant_id_length,
  max_audit_reason_length, max_worker_id_length, max_worker_gpus, max_gpu_name_length,
  JobFailureCode, CostClass, WorkerCapability, GpuTelemetry, WorkerRegistration,
}
use outbound_gpu_worker_pool.Regex.{fullmatch}
use outbound_gpu_worker_pool.Validation.{capability_id_pattern}
use outbound_gpu_worker_pool.Enrollment.{is_worker_id}

abbrev pub max_claim_token_length : ℕ
max_claim_token_length = 64

abbrev pub max_plugin_id_length : ℕ
max_plugin_id_length = 64

abbrev pub max_plugin_version_length : ℕ
max_plugin_version_length = 32

abbrev pub max_runtime_versions : ℕ
max_runtime_versions = 32

abbrev pub max_runtime_version_key_length : ℕ
max_runtime_version_key_length = 96

abbrev pub max_labels : ℕ
max_labels = 16

abbrev pub max_capabilities : ℕ
max_capabilities = 32

-- `Field(min_length=lo, max_length=hi)` of a text and of a list, and `Field(ge=lo, le=hi)`.
abbrev pub text_within : ℕ → ℕ → String → Bool
text_within lo hi s = leb lo (len s) && leb (len s) hi

abbrev pub entries_within {ℓ} : {A : Type ℓ} → ℕ → ℕ → List A → Bool
entries_within lo hi xs = leb lo (length xs) && leb (length xs) hi

abbrev pub int_within : ℕ → ℕ → ℤ → Bool
int_within lo hi n = int_le (pos lo) n && int_le n (pos hi)

abbrev pub optional {ℓ} : {A : Type ℓ} → (A → Bool) → Option A → Bool
optional p none = true
optional p (some a) = p a

-- A pattern of a model is read by an engine whose `$` is the text's end.
unfoldable pub is_capability_id : String → Bool
unfolding fullmatch
is_capability_id s =
    leb (len s) max_capability_id_length && fullmatch capability_id_pattern (codes s)

pub record WorkerCapabilityDto : Type 0 where
  pub capability_id : String
  pub plugin_id : String
  pub plugin_version : String
  pub concurrency : ℤ

unfoldable pub valid_capability : WorkerCapabilityDto → Bool
unfolding is_capability_id
valid_capability c =
    is_capability_id c.capability_id
    && text_within 1 max_plugin_id_length c.plugin_id
    && text_within 1 max_plugin_version_length c.plugin_version
    && int_within 1 64 c.concurrency

pub record GpuTelemetryDto : Type 0 where
  pub index : ℤ
  pub name : String
  pub utilization_pct : Option ℤ
  pub memory_used_mb : Option ℤ
  pub memory_total_mb : Option ℤ

unfoldable pub valid_telemetry : GpuTelemetryDto → Bool
valid_telemetry g =
    int_within 0 63 g.index
    && text_within 1 max_gpu_name_length g.name
    && optional (int_within 0 100) g.utilization_pct
    && optional (int_within 0 1000000) g.memory_used_mb
    && optional (int_within 0 1000000) g.memory_total_mb

unfoldable pub to_telemetry : GpuTelemetryDto → GpuTelemetry
to_telemetry g = record {
  index = g.index;
  name = g.name;
  utilization_pct = g.utilization_pct;
  memory_used_mb = g.memory_used_mb;
  memory_total_mb = g.memory_total_mb;
}

unfoldable pub from_telemetry : GpuTelemetry → GpuTelemetryDto
from_telemetry g = record {
  index = g.index;
  name = g.name;
  utilization_pct = g.utilization_pct;
  memory_used_mb = g.memory_used_mb;
  memory_total_mb = g.memory_total_mb;
}

pub record WorkerHeartbeatRequest : Type 0 where
  pub worker_id : String
  pub capabilities : List WorkerCapabilityDto
  pub tenant_id : Option String
  pub gpu_model : Option String
  pub vram_mb : Option ℤ
  pub runtime_versions : Dict String
  pub cost_class : CostClass
  pub labels : List String
  pub active_leases : ℤ
  pub draining : Bool
  pub gpus : List GpuTelemetryDto
  pub busy_job_id : Option String

abbrev valid_version : String × String → Bool
valid_version (k, v) = text_within 1 max_runtime_version_key_length k && text_within 1 64 v

unfoldable pub valid_heartbeat : WorkerHeartbeatRequest → Bool
unfolding valid_capability valid_telemetry is_worker_id
valid_heartbeat h =
    text_within 1 max_worker_id_length h.worker_id
    && is_worker_id h.worker_id
    && entries_within 1 max_capabilities h.capabilities
    && all valid_capability h.capabilities
    && optional (text_within 1 max_tenant_id_length) h.tenant_id
    && optional (text_within 0 64) h.gpu_model
    && optional (int_within 0 1000000) h.vram_mb
    && entries_within 0 max_runtime_versions h.runtime_versions
    && all valid_version h.runtime_versions
    && entries_within 0 max_labels h.labels
    && all (text_within 1 32) h.labels
    && int_within 0 64 h.active_leases
    && entries_within 0 max_worker_gpus h.gpus
    && all valid_telemetry h.gpus
    && optional (text_within 0 max_job_id_length) h.busy_job_id

-- The service takes numbers that are not negative, which a valid request holds.
abbrev pub optional_part : Option ℤ → Option ℕ
optional_part none = none
optional_part (some n) = some (pos_part n)

abbrev pub to_capability : WorkerCapabilityDto → WorkerCapability
to_capability c = record {
  capability_id = c.capability_id;
  plugin_id = c.plugin_id;
  plugin_version = c.plugin_version;
  concurrency = pos_part c.concurrency;
}

unfoldable pub to_registration : WorkerHeartbeatRequest → WorkerRegistration
unfolding to_telemetry
to_registration h = record {
  worker_id = h.worker_id;
  capabilities = map to_capability h.capabilities;
  tenant_id = h.tenant_id;
  gpu_model = h.gpu_model;
  vram_mb = optional_part h.vram_mb;
  runtime_versions = h.runtime_versions;
  cost_class = h.cost_class;
  labels = h.labels;
  active_leases = pos_part h.active_leases;
  is_draining = h.draining;
  gpus = map to_telemetry h.gpus;
  busy_job_id = h.busy_job_id;
}

pub record LeaseRequest : Type 0 where
  pub capability_ids : List String
  pub lease_seconds : Option ℤ

unfoldable pub valid_lease : LeaseRequest → Bool
unfolding is_capability_id
valid_lease q =
    entries_within 1 max_capabilities q.capability_ids
    && all is_capability_id q.capability_ids
    && optional (int_within 60 7200) q.lease_seconds

pub record JobHeartbeatRequest : Type 0 where
  pub claim_token : String
  pub progress_percent : Option ℤ

abbrev pub valid_token : String → Bool
valid_token t = text_within 1 max_claim_token_length t

unfoldable pub valid_job_heartbeat : JobHeartbeatRequest → Bool
valid_job_heartbeat q = valid_token q.claim_token && optional (int_within 0 100) q.progress_percent

abbrev pub is_ok {ℓ} : {A : Type ℓ} → Result A → Bool
is_ok (ok a) = true
is_ok (err e) = false

pub record FailRequest : Type 0 where
  pub claim_token : String
  pub reason : String
  pub retryable : Bool
  pub failure_code : JobFailureCode

unfoldable pub valid_fail : FailRequest → Bool
valid_fail q = valid_token q.claim_token && text_within 1 max_audit_reason_length q.reason

pub record ReleaseRequest : Type 0 where
  pub claim_token : String
  pub reason : String

unfoldable pub valid_release : ReleaseRequest → Bool
valid_release q = valid_token q.claim_token && text_within 1 max_audit_reason_length q.reason
