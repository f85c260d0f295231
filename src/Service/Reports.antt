-- ===== src/Service/Reports.antt =====
-- What the service's methods on workers do to the stores.
use outbound_gpu_worker_pool.Base.{
  String, ◌≡◌, refl, inl, inr, true, [], ◌∷◌, Bool-cases, Option-cases, ℤ_eq, ◌==◌, ℕ_eq, String_eq,
  Option_eq, List_eq,
}
use outbound_gpu_worker_pool.Contracts.{
  Result-cases, WorkerStatus, active, draining, revoked, WorkerRegistration, WorkerIdentity,
}
use outbound_gpu_worker_pool.JobStore.Evolution.{run}
use outbound_gpu_worker_pool.Registry.{upsert, set_status}
use outbound_gpu_worker_pool.Registry.Bindings.{
  registry_step, registry_run, RegistryCall, reports, marks,
}
use outbound_gpu_worker_pool.Service.{return, continue, Settings, Pool}
use outbound_gpu_worker_pool.Service.Qualification.{unqualified_reason}
use outbound_gpu_worker_pool.Service.Admission.{approve, approved_enrollment}
use outbound_gpu_worker_pool.Service.Refinement.{untouched, Refines}
use outbound_gpu_worker_pool.Service.Workers.{
  advertised, check_capability_ids, as_mismatch, register_heartbeat, note_revoked,
  set_worker_status,
}

-- One call of the registry.
pub one_report :
    {s : Settings} {pool t : Pool} (c : RegistryCall)
    → t.jobs ≡ pool.jobs
    → t.registry ≡ registry_step c (s.clock pool.readings) pool.registry
    → Refines s pool t
unfolding run registry_run
one_report {s = s} {pool = pool} c j r = record {
  calls = [];
  fresh = tt;
  jobs = j;
  reports = (c, s.clock pool.readings) ∷ [];
  registry = r;
}

pub register_heartbeat-Refines :
    (s : Settings) (i : WorkerIdentity) (g : WorkerRegistration) (pool : Pool)
    → Refines s pool (register_heartbeat s i g pool).1
unfolding register_heartbeat approved_enrollment registry_step
register_heartbeat-Refines s i g pool = elim (Bool-cases (g.worker_id == i.worker_id)) [
  | inr a ↦ rw (register_heartbeat, a) (untouched refl refl)
  | inl a ↦ elim (Result-cases (approve s.lib s.enrollments i pool.registry)) [
    | inr (e, q) ↦ rw (register_heartbeat, a, q) (untouched refl refl)
    | inl (x, q) ↦ elim (Bool-cases (g.tenant_id == x.tenant_id)) [
      | inr t ↦ rw (register_heartbeat, a, q, t) (untouched refl refl)
      | inl t ↦ elim (Result-cases (check_capability_ids (advertised g))) [
        | inr (e, c) ↦ rw (register_heartbeat, a, q, t, c) (untouched refl refl)
        | inl (u, c) ↦
            elim (Option-cases (unqualified_reason s.profiles (advertised g) g.runtime_versions)) [
              | inr (reason, r) ↦ rw (register_heartbeat, a, q, t, c, r) (untouched refl refl)
              | inl r ↦
                  elim (Result-cases
                    (as_mismatch i (upsert g i.subject (s.clock pool.readings) pool.registry).0)) [
                      | inr (e, m) ↦
                          rw (register_heartbeat, a, q, t, c, r, m)
                            (one_report (reports g i.subject) refl refl)
                      | inl (w, m) ↦
                          rw (register_heartbeat, a, q, t, c, r, m)
                            (one_report (reports g i.subject) refl refl)
                    ]
            ]
      ]
    ]
  ]
]

note_revoked-keeps :
    (s : Settings) (status : WorkerStatus) (worker_id : String) (pool t : Pool)
    → Refines s pool t
    → Refines s pool (continue (note_revoked s status worker_id t) (λ _. return true)).1
note_revoked-keeps s active worker_id pool t h = h
note_revoked-keeps s draining worker_id pool t h = h
note_revoked-keeps s revoked worker_id pool t h = record {
  calls = h.calls;
  fresh = h.fresh;
  jobs = h.jobs;
  reports = h.reports;
  registry = h.registry;
}

pub set_worker_status-Refines :
    (s : Settings) (worker_id : String) (status : WorkerStatus) (pool : Pool)
    → Refines s pool (set_worker_status s worker_id status pool).1
unfolding set_worker_status registry_step
set_worker_status-Refines s worker_id status pool =
    elim (Bool-cases (set_status worker_id status (s.clock pool.readings) pool.registry).0) [
      | inr b ↦ rw (set_worker_status, b) (one_report (marks worker_id status) refl refl)
      | inl b ↦
          rw (set_worker_status, b)
            (note_revoked-keeps s status worker_id pool _
              (one_report (marks worker_id status) refl refl))
    ]
