-- ===== src/Service/Workers.antt =====
-- `enroll_worker`, `register_heartbeat` and `set_worker_status` of service.py.
use outbound_gpu_worker_pool.Base.{
  String, Bool, true, false, not, Option, none, some, List, [], ◌∷◌, map, length, ℤ_eq, pos, ◌==◌,
  ℕ_eq, String_eq, Option_eq, List_eq, get,
}
use outbound_gpu_worker_pool.Contracts.{
  worker_identity_mismatch, identity_subject_taken, worker_tenant_mismatch, worker_mismatch, Result,
  ok, err, bool, int, str, end, field, WorkerStatus, active, draining, revoked, local_cost,
  worker_heartbeat, worker_status_changed, worker_revoked_event, WorkerCapability,
  WorkerRegistration, WorkerRecord, WorkerIdentity,
}
use outbound_gpu_worker_pool.Validation.{validate_capability_id}
use outbound_gpu_worker_pool.Registry.{upsert, set_status}
use outbound_gpu_worker_pool.Enrollment.{validate_enrollments, WorkerEnrollment}
use outbound_gpu_worker_pool.Service.{
  ◌>>◌, ◌>>=◌, Action, return, lift, fail_if, gets, on_registry, record_event, Settings,
}
use outbound_gpu_worker_pool.Service.Qualification.{unqualified_reason}
use outbound_gpu_worker_pool.Service.Admission.{refuse, approved_enrollment}

-- `status_text` and the other texts are `str(...)` of a `StrEnum`.
abbrev status_text : WorkerStatus → String
status_text active = "active"
status_text draining = "draining"
status_text revoked = "revoked"

abbrev pub advertised : WorkerRegistration → List String
advertised g = map (λ (c : WorkerCapability). c.capability_id) g.capabilities

abbrev pub check_capability_ids : List String → Result (Unit {0})
check_capability_ids [] = ok tt
check_capability_ids (c ∷ cs) = elim (validate_capability_id c) [
  | err e ↦ err e
  | ok _ ↦ check_capability_ids cs
]

-- `except IdentitySubjectTaken`
abbrev pub as_mismatch : WorkerIdentity → Result WorkerRecord → Result WorkerRecord
as_mismatch i (err (identity_subject_taken subject)) = err (worker_mismatch i.subject)
as_mismatch i r = r

-- `WorkerRegistration(worker_id, (), tenant_id)`: all else by default.
abbrev pub bare_registration : String → Option String → WorkerRegistration
bare_registration worker_id tenant = record {
  worker_id = worker_id;
  capabilities = [];
  tenant_id = tenant;
  gpu_model = none;
  vram_mb = none;
  runtime_versions = [];
  cost_class = local_cost;
  labels = [];
  active_leases = 0;
  is_draining = false;
  gpus = [];
  busy_job_id = none;
}

module _ (s : Settings) where
  abbrev pub enrolled : String → WorkerEnrollment → Option WorkerRecord → Action WorkerRecord
  enrolled worker_id e (some w) = do
    fail_if (not (w.identity_subject == e.identity_subject)) (worker_identity_mismatch worker_id)
    fail_if (not (w.tenant_id == e.tenant_id)) (worker_tenant_mismatch worker_id)
    return w
  enrolled worker_id e none = do
    r ← on_registry s (upsert (bare_registration worker_id e.tenant_id) e.identity_subject)
    lift r

  unfoldable pub enroll_worker : String → WorkerEnrollment → Action WorkerRecord
  enroll_worker worker_id e = do
    _ ← lift (validate_enrollments ((worker_id, e) ∷ []))
    existing ← gets (λ p. get worker_id p.registry.workers)
    enrolled worker_id e existing

  unfoldable pub register_heartbeat : WorkerIdentity → WorkerRegistration → Action WorkerRecord
  unfolding approved_enrollment
  register_heartbeat i g = do
    fail_if (not (g.worker_id == i.worker_id)) (worker_mismatch g.worker_id)
    e ← approved_enrollment s i
    fail_if (not (g.tenant_id == e.tenant_id)) (worker_tenant_mismatch g.worker_id)
    lift (check_capability_ids (advertised g))
    refuse (unqualified_reason s.profiles (advertised g) g.runtime_versions)
    upserted ← on_registry s (upsert g i.subject)
    w ← lift (as_mismatch i upserted)
    record_event s worker_heartbeat (some w.worker_id) none (
        field "capabilities" (int (pos (length g.capabilities)))
          (field "draining" (bool g.is_draining) end))
    return w

  abbrev pub note_revoked : WorkerStatus → String → Action (Unit {0})
  note_revoked revoked worker_id = record_event s worker_revoked_event (some worker_id) none end
  note_revoked _ worker_id = return tt

  abbrev pub note_status : Bool → WorkerStatus → String → Action Bool
  note_status false status worker_id = return false
  note_status true status worker_id = do
    record_event s worker_status_changed (some worker_id) none
        (field "status" (str (status_text status)) end)
    note_revoked status worker_id
    return true

  unfoldable pub set_worker_status : String → WorkerStatus → Action Bool
  set_worker_status worker_id status = do
    changed ← on_registry s (set_status worker_id status)
    note_status changed status worker_id
