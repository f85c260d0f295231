-- ===== src/Contracts/Worker.antt =====
-- The worker and audit types of contracts.py.
use outbound_gpu_worker_pool.Base.{ℕ, String, Bool, Option, List, map, ℤ, Dict}
use outbound_gpu_worker_pool.Contracts.Values.{Fields}

pub data WorkerStatus : Type 0 where
  active draining revoked : WorkerStatus

pub data CostClass : Type 0 where
  local_cost hosted premium : CostClass

pub data AuditEventType : Type 0 where
  worker_heartbeat worker_status_changed worker_revoked_event : AuditEventType
  lease_granted lease_empty : AuditEventType
  job_heartbeat_event job_completed job_failed job_released completion_rejected_event :
      AuditEventType
  auth_rejected rate_limited_event : AuditEventType

pub record WorkerCapability : Type 0 where
  pub capability_id : String
  pub plugin_id : String
  pub plugin_version : String
  pub concurrency : ℕ

pub record GpuTelemetry : Type 0 where
  pub index : ℤ
  pub name : String
  pub utilization_pct : Option ℤ
  pub memory_used_mb : Option ℤ
  pub memory_total_mb : Option ℤ

pub record WorkerRegistration : Type 0 where
  pub worker_id : String
  pub capabilities : List WorkerCapability
  pub tenant_id : Option String
  pub gpu_model : Option String
  pub vram_mb : Option ℕ
  pub runtime_versions : Dict String
  pub cost_class : CostClass
  pub labels : List String
  pub active_leases : ℕ
  pub is_draining : Bool
  pub gpus : List GpuTelemetry
  pub busy_job_id : Option String

pub record WorkerRecord : Type 0 where
  pub worker_id : String
  pub identity_subject : String
  pub status : WorkerStatus
  pub capabilities : List WorkerCapability
  pub gpu_model : Option String
  pub vram_mb : Option ℕ
  pub runtime_versions : Dict String
  pub cost_class : CostClass
  pub labels : List String
  pub active_leases : ℕ
  pub last_heartbeat_at : Option ℕ
  pub created_at : ℕ
  pub updated_at : ℕ
  pub revoked_at : Option ℕ
  pub gpus : List GpuTelemetry
  pub busy_job_id : Option String
  pub tenant_id : Option String

abbrev pub capability_ids : WorkerRecord → List String
capability_ids w = map (λ c. c.capability_id) w.capabilities

pub data PoolWorkerStatus : Type 0 where
  busy pool_draining online offline : PoolWorkerStatus

pub record PoolWorkerView : Type 0 where
  pub worker_id : String
  pub status : PoolWorkerStatus
  pub last_heartbeat_at : Option ℕ
  pub capability_ids : List String
  pub gpus : List GpuTelemetry
  pub busy_job_id : Option String
  pub is_draining : Bool
  pub tenant_id : Option String
  pub gpu_model : Option String
  pub vram_mb : Option ℕ
  pub runtime_versions : Dict String

pub record WorkerIdentity : Type 0 where
  pub worker_id : String
  pub subject : String
  pub method : String

pub record AuditEvent : Type 0 where
  pub event_type : AuditEventType
  pub worker_id : Option String
  pub job_id : Option String
  pub detail : Fields
  pub created_at : ℕ
