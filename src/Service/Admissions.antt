-- ===== src/Service/Admissions.antt =====
-- What authentication and enrollment do to the stores.
use outbound_gpu_worker_pool.Base.{
  ◌+◌, String, ◌≡◌, refl, ◌∙◌, inl, inr, Option, none, some, [], ◌∷◌, leb, Bool-cases, ℤ_eq, ◌==◌,
  ℕ_eq, String_eq, Option_eq, List_eq,
}
use outbound_gpu_worker_pool.Contracts.{
  Result-cases, Error, worker_auth_error, worker_identity_mismatch, rate_limited, Result, ok, err,
  AuditEventType, auth_rejected, rate_limited_event, WorkerRecord, WorkerIdentity,
}
use outbound_gpu_worker_pool.Registry.Bindings.{registry_step, reports}
use outbound_gpu_worker_pool.RateLimiter.{allow}
use outbound_gpu_worker_pool.Enrollment.{validate_enrollments, WorkerEnrollment}
use outbound_gpu_worker_pool.Service.{raise, continue, Settings, Pool}
use outbound_gpu_worker_pool.Service.Admission.{approve, approved_enrollment}
use outbound_gpu_worker_pool.Service.Refinement.{untouched, Refines}
use outbound_gpu_worker_pool.Service.Reports.{one_report}
use outbound_gpu_worker_pool.Service.Authentication.{
  audit_auth, authenticated, on_auth_error, handled, left, oversized, credential, authenticate,
}
use outbound_gpu_worker_pool.Service.Workers.{bare_registration, enrolled, enroll_worker}

-- The same stores, whatever else of the pool has changed.
onward :
    {s : Settings} {pool t u : Pool}
    → Refines s pool t
    → u.jobs ≡ t.jobs
    → u.registry ≡ t.registry
    → Refines s pool u
onward h j r = record {
  calls = h.calls;
  fresh = h.fresh;
  jobs = j ∙ h.jobs;
  reports = h.reports;
  registry = r ∙ h.registry;
}

audit_raise-Refines :
    (s : Settings) (kind : AuditEventType) (w : Option String) (e : Error) (pool t : Pool)
    → Refines s pool t
    → Refines s pool (continue {B = WorkerIdentity} (audit_auth s kind w t) (λ _. raise e)).1
unfolding audit_auth
audit_raise-Refines s kind w e pool t h =
    elim (Bool-cases (allow "*" (s.clock t.readings) t.auth_audit_limiter).0) [
      | inl b ↦ rw (audit_auth, b) (onward h refl refl)
      | inr b ↦ rw (audit_auth, b) (onward h refl refl)
    ]

authenticated-Refines :
    (s : Settings) (a : String) (pool t : Pool)
    → Refines s pool t
    → Refines s pool (authenticated s a t).1
unfolding authenticated approved_enrollment
authenticated-Refines s a pool t h = elim (Result-cases (s.authenticator a)) [
  | inr (e, q) ↦ rw (authenticated, q) h
  | inl (i, q) ↦ elim (Result-cases (approve s.lib s.enrollments i t.registry)) [
    | inr (e, x) ↦ rw (authenticated, q, x) h
    | inl (n, x) ↦ elim (Bool-cases (allow i.worker_id (s.clock t.readings) t.worker_limiter).0) [
      | inr b ↦
          rw (authenticated, q, x, b)
            (audit_raise-Refines s rate_limited_event (some i.worker_id) (rate_limited i.worker_id)
              pool _ (onward h refl refl))
      | inl b ↦ elim (Bool-cases (allow "*" (s.clock (t.readings + 1)) t.global_limiter).0) [
        | inr g ↦
            rw (authenticated, q, x, b, g)
              (audit_raise-Refines s rate_limited_event (some i.worker_id)
                (rate_limited i.worker_id) pool _ (onward h refl refl))
        | inl g ↦ rw (authenticated, q, x, b, g) (onward h refl refl)
      ]
    ]
  ]
]

on_auth_error-Refines :
    (s : Settings) (e : Error) (pool t : Pool)
    → Refines s pool t
    → Refines s pool (on_auth_error s e t).1
unfolding on_auth_error
on_auth_error-Refines s (worker_auth_error m) pool t h =
    audit_raise-Refines s auth_rejected none (worker_auth_error m) pool t h
on_auth_error-Refines s (worker_identity_mismatch m) pool t h =
    audit_raise-Refines s auth_rejected none (worker_identity_mismatch m) pool t h
on_auth_error-Refines s e pool t h = h

handled-Refines :
    (s : Settings) (a : Result WorkerIdentity × Pool) (pool : Pool)
    → Refines s pool a.1
    → Refines s pool (left s (handled s a)).1
handled-Refines s (ok i, t) pool h = onward h refl refl
handled-Refines s (err e, t) pool h = onward (on_auth_error-Refines s e pool t h) refl refl

pub authenticate-Refines :
    (s : Settings) (a : Option String) (source : String) (pool : Pool)
    → Refines s pool (authenticate s a source pool).1
unfolding authenticate
authenticate-Refines s a source pool =
    elim (Bool-cases (allow source (s.clock pool.readings) pool.source_limiter).0) [
      | inr b ↦ rw (authenticate, b) (untouched refl refl)
      | inl b ↦
          elim (Bool-cases (allow "*" (s.clock (pool.readings + 1)) pool.pre_auth_limiter).0) [
            | inr c ↦ rw (authenticate, b, c) (untouched refl refl)
            | inl c ↦ elim (Bool-cases (leb s.max_auth_concurrency pool.active_auth)) [
              | inl f ↦ rw (authenticate, b, c, f) (untouched refl refl)
              | inr f ↦ elim (Bool-cases (oversized s a)) [
                | inl o ↦
                    rw (authenticate, b, c, f, o)
                      (audit_raise-Refines s auth_rejected none
                        (worker_auth_error "missing or oversized credential") pool _
                        (untouched refl refl))
                | inr o ↦
                    rw (authenticate, b, c, f, o)
                      (handled-Refines s _ pool
                        (authenticated-Refines s (credential s a) pool _ (untouched refl refl)))
              ]
            ]
          ]
    ]

enrolled-Refines :
    (s : Settings) (worker_id : String) (e : WorkerEnrollment) (o : Option WorkerRecord)
    (pool : Pool)
    → Refines s pool (enrolled s worker_id e o pool).1
unfolding registry_step
enrolled-Refines s worker_id e (some w) pool =
    elim (Bool-cases (w.identity_subject == e.identity_subject)) [
      | inr a ↦ rw a (untouched refl refl)
      | inl a ↦ elim (Bool-cases (w.tenant_id == e.tenant_id)) [
        | inr b ↦ rw (a, b) (untouched refl refl)
        | inl b ↦ rw (a, b) (untouched refl refl)
      ]
    ]
enrolled-Refines s worker_id e none pool =
    one_report (reports (bare_registration worker_id e.tenant_id) e.identity_subject) refl refl

pub enroll_worker-Refines :
    (s : Settings) (worker_id : String) (e : WorkerEnrollment) (pool : Pool)
    → Refines s pool (enroll_worker s worker_id e pool).1
unfolding enroll_worker
enroll_worker-Refines s worker_id e pool =
    elim (Result-cases (validate_enrollments ((worker_id, e) ∷ []))) [
      | inr (x, q) ↦ rw (enroll_worker, q) (untouched refl refl)
      | inl (d, q) ↦ rw (enroll_worker, q) (enrolled-Refines s worker_id e _ pool)
    ]
