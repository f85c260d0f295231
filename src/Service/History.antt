-- ===== src/Service/History.antt =====
-- Whole histories of requests to the service.
use outbound_gpu_worker_pool.Base.{ℕ, String, refl, sym, subst, Option, List, [], ◌∷◌}
use outbound_gpu_worker_pool.Contracts.{
  JobSubmission, WorkerStatus, WorkerRegistration, WorkerIdentity,
}
use outbound_gpu_worker_pool.JobStore.Evolution.{step, submits, cancels}
use outbound_gpu_worker_pool.JobStore.Calls.{Fresh}
use outbound_gpu_worker_pool.JobStore.History.{run-StoreIsValid, StoreIsValid}
use outbound_gpu_worker_pool.Registry.Bindings.{registry_run-RegistryIsValid, RegistryIsValid}
use outbound_gpu_worker_pool.Enrollment.{WorkerEnrollment}
use outbound_gpu_worker_pool.Service.{Settings, Pool}
use outbound_gpu_worker_pool.Service.Leases.{lease_job}
use outbound_gpu_worker_pool.Service.Views.{submit_job, cancel_job}
use outbound_gpu_worker_pool.Service.Ownership.{perform, Work}
use outbound_gpu_worker_pool.Service.Refinement.{one_call, Refines}
use outbound_gpu_worker_pool.Service.Reports.{register_heartbeat-Refines, set_worker_status-Refines}
use outbound_gpu_worker_pool.Service.Admissions.{authenticate-Refines, enroll_worker-Refines}
use outbound_gpu_worker_pool.Service.Settlements.{perform-Refines}
use outbound_gpu_worker_pool.Service.Handouts.{lease_job-Refines, submit_job-Refines}
use outbound_gpu_worker_pool.Service.Authentication.{authenticate}
use outbound_gpu_worker_pool.Service.Workers.{enroll_worker, register_heartbeat, set_worker_status}

-- The methods of the service that write, with their arguments.
pub data Request : Type 0 where
  to_submit : JobSubmission → Request
  to_cancel : String → Request
  to_enroll : String → WorkerEnrollment → Request
  to_restate : String → WorkerStatus → Request
  to_authenticate : Option String → String → Request
  to_report : WorkerIdentity → WorkerRegistration → Request
  to_lease : WorkerIdentity → List String → Option ℕ → Request
  to_work : WorkerIdentity → String → String → Work → Request

-- The pool after a request, whether it was answered or raised.
unfoldable pub serve : Settings → Request → Pool → Pool
unfolding cancel_job
serve s (to_submit x) pool = (submit_job s x pool).1
serve s (to_cancel job_id) pool = (cancel_job s job_id pool).1
serve s (to_enroll worker_id e) pool = (enroll_worker s worker_id e pool).1
serve s (to_restate worker_id status) pool = (set_worker_status s worker_id status pool).1
serve s (to_authenticate a source) pool = (authenticate s a source pool).1
serve s (to_report i g) pool = (register_heartbeat s i g pool).1
serve s (to_lease i asked secs) pool = (lease_job s i asked secs pool).1
serve s (to_work i job_id token w) pool = (perform s i job_id token w pool).1

unfoldable pub serve_all : Settings → List Request → Pool → Pool
serve_all s [] pool = pool
serve_all s (r ∷ rs) pool = serve_all s rs (serve s r pool)

-- A submission brings a new job id, or that of the job with its own idempotency key.
abbrev pub FreshRequest : Request → Pool → Type 0
FreshRequest (to_submit x) pool = Fresh (submits x) pool.jobs
FreshRequest _ pool = Unit {0}

abbrev pub FreshRequests : Settings → List Request → Pool → Type 0
FreshRequests s [] pool = Unit {0}
FreshRequests s (r ∷ rs) pool = FreshRequest r pool × FreshRequests s rs (serve s r pool)

-- Every request to the service, on every branch, errors included, changes the jobs only by calls of
-- the job store and the workers only by calls of the registry. (A submission brings a new job id,
-- or that of the job with its own idempotency key.)
pub serve-Refines :
    (s : Settings) (r : Request) (pool : Pool)
    → FreshRequest r pool
    → Refines s pool (serve s r pool)
unfolding serve step
serve-Refines s (to_submit x) pool f = submit_job-Refines s x pool f
serve-Refines s (to_cancel job_id) pool f = one_call (cancels job_id) tt refl refl
serve-Refines s (to_enroll worker_id e) pool f = enroll_worker-Refines s worker_id e pool
serve-Refines s (to_restate worker_id status) pool f =
    set_worker_status-Refines s worker_id status pool
serve-Refines s (to_authenticate a source) pool f = authenticate-Refines s a source pool
serve-Refines s (to_report i g) pool f = register_heartbeat-Refines s i g pool
serve-Refines s (to_lease i asked secs) pool f = lease_job-Refines s i asked secs pool
serve-Refines s (to_work i job_id token w) pool f = perform-Refines s i job_id token w pool

-- The job store and the registry are valid.
pub record PoolIsValid (pool : Pool) : Type 0 where
  pub jobs : StoreIsValid pool.jobs
  pub registry : RegistryIsValid pool.registry

pub Refines-PoolIsValid :
    (s : Settings) (p t : Pool) → Refines s p t → PoolIsValid p → PoolIsValid t
Refines-PoolIsValid s p t f v = record {
  jobs = subst StoreIsValid (sym f.jobs) (run-StoreIsValid s.lib f.calls p.jobs f.fresh v.jobs);
  registry =
      subst RegistryIsValid (sym f.registry)
        (registry_run-RegistryIsValid f.reports p.registry v.registry);
}

-- Whatever hosts and workers ask of the service, in whatever order and whether or not it raises, a
-- valid pool stays valid: every job keeps its budget and has lease fields exactly while it is
-- processing, and no two workers share an identity subject. (Each submission brings a new job id,
-- or that of the job with its own idempotency key.)
pub serve_all-PoolIsValid :
    (s : Settings) (rs : List Request) (pool : Pool)
    → FreshRequests s rs pool
    → PoolIsValid pool
    → PoolIsValid (serve_all s rs pool)
unfolding serve_all
serve_all-PoolIsValid s [] pool f v = v
serve_all-PoolIsValid s (r ∷ rs) pool f v =
    serve_all-PoolIsValid s rs (serve s r pool) f.1
      (Refines-PoolIsValid s pool (serve s r pool) (serve-Refines s r pool f.0) v)
