-- ===== src/Audit.antt =====
-- `MemoryAuditLog` of memory.py: it only grows.
use outbound_gpu_worker_pool.Base.{
  ℕ, String, Option, some, List, [], ◌∷◌, ◌++◌, filter, ℤ_eq, ◌==◌, ℕ_eq, String_eq, Option_eq,
  List_eq,
}
use outbound_gpu_worker_pool.Contracts.{Fields, AuditEventType, AuditEvent}

pub record AuditLog : Type 0 where
  pub events : List AuditEvent

unfoldable pub log_event :
    AuditEventType → Option String → Option String → Fields → ℕ → AuditLog → AuditLog
log_event kind worker_id job_id detail now log = record {
  events =
      log.events
      ++ (record {
        event_type = kind;
        worker_id = worker_id;
        job_id = job_id;
        detail = detail;
        created_at = now;
      })
        ∷ [];
}

unfoldable pub list_for_job : String → AuditLog → List AuditEvent
list_for_job job_id log = filter (λ e. e.job_id == some job_id) log.events
