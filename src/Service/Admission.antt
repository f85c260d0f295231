-- ===== src/Service/Admission.antt =====
-- Who may act for a worker: `_approved_enrollment` of service.py, and the refusal of a profile.
use outbound_gpu_worker_pool.Base.{
  String, not, Option, none, some, if◌then◌else◌, ℤ_eq, ◌==◌, ℕ_eq, String_eq, Option_eq, List_eq,
  Dict, get,
}
use outbound_gpu_worker_pool.Contracts.{
  worker_auth_error, worker_identity_mismatch, profile_not_qualified, worker_revoked, Result, ok,
  err, WorkerRecord, WorkerIdentity,
}
use outbound_gpu_worker_pool.Stdlib.{Stdlib}
use outbound_gpu_worker_pool.Registry.{is_revoked, WorkerRegistry}
use outbound_gpu_worker_pool.Enrollment.{new_enrollment, WorkerEnrollment}
use outbound_gpu_worker_pool.Service.{Action, return, raise, Settings}

-- A known worker answers for itself: its row, as an enrollment.
unfoldable pub approve_known : Stdlib → WorkerIdentity → WorkerRecord → Result WorkerEnrollment
approve_known lib i w =
    if not (w.identity_subject == i.subject)
    then err (worker_identity_mismatch i.worker_id)
    else if is_revoked w.status
    then err (worker_revoked i.worker_id)
    else new_enrollment lib w.identity_subject w.tenant_id

-- An unknown one needs an enrollment with its subject.
unfoldable pub approve_new : WorkerIdentity → Option WorkerEnrollment → Result WorkerEnrollment
approve_new i none = err (worker_auth_error "worker has no approved enrollment")
approve_new i (some e) =
    if not (e.identity_subject == i.subject)
    then err (worker_auth_error "worker has no approved enrollment")
    else ok e

unfoldable pub approve :
    Stdlib → Dict WorkerEnrollment → WorkerIdentity → WorkerRegistry → Result WorkerEnrollment
unfolding approve_known approve_new
approve lib enrollments i st = elim (get i.worker_id st.workers) [
  | some w ↦ approve_known lib i w
  | none ↦ approve_new i (get i.worker_id enrollments)
]

abbrev pub refuse : Option String → Action (Unit {0})
refuse none = return tt
refuse (some reason) = raise (profile_not_qualified reason)

module _ (s : Settings) where
  unfoldable pub approved_enrollment : WorkerIdentity → Action WorkerEnrollment
  unfolding approve
  approved_enrollment i p = (approve s.lib s.enrollments i p.registry, p)
