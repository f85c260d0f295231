-- ===== src/Service/Refinement.antt =====
-- The service as a client of its stores: what it does to jobs and workers are calls of theirs.
use outbound_gpu_worker_pool.Base.{ℕ, ◌≡◌, refl, sym, ap, ◌∙◌, subst, List, [], ◌∷◌, ◌++◌}
use outbound_gpu_worker_pool.JobStore.{JobStore}
use outbound_gpu_worker_pool.JobStore.Evolution.{step, run, Call}
use outbound_gpu_worker_pool.JobStore.Calls.{Fresh}
use outbound_gpu_worker_pool.JobStore.History.{FreshRun}
use outbound_gpu_worker_pool.Registry.{WorkerRegistry}
use outbound_gpu_worker_pool.Registry.Bindings.{registry_step, registry_run, RegistryCall}
use outbound_gpu_worker_pool.Service.{Settings, Pool}

-- The pool's jobs went through calls of the job store, and its workers through calls of the
-- registry.
pub record Refines (s : Settings) (pool t : Pool) : Type 0 where
  pub calls : List (Call × ℕ)
  pub fresh : FreshRun s.lib calls pool.jobs
  pub jobs : t.jobs ≡ run s.lib calls pool.jobs
  pub reports : List (RegistryCall × ℕ)
  pub registry : t.registry ≡ registry_run reports pool.registry

run-append :
    (s : Settings) (cs ds : List (Call × ℕ)) (st : JobStore)
    → run s.lib (cs ++ ds) st ≡ run s.lib ds (run s.lib cs st)
unfolding run
run-append s [] ds st = refl
run-append s ((c, now) ∷ cs) ds st = run-append s cs ds (step s.lib c now st)

FreshRun-append :
    (s : Settings) (cs ds : List (Call × ℕ)) (st : JobStore)
    → FreshRun s.lib cs st
    → FreshRun s.lib ds (run s.lib cs st)
    → FreshRun s.lib (cs ++ ds) st
unfolding run
FreshRun-append s [] ds st f g = g
FreshRun-append s ((c, now) ∷ cs) ds st f g =
    (f.0, FreshRun-append s cs ds (step s.lib c now st) f.1 g)

registry_run-append :
    (cs ds : List (RegistryCall × ℕ)) (st : WorkerRegistry)
    → registry_run (cs ++ ds) st ≡ registry_run ds (registry_run cs st)
unfolding registry_run
registry_run-append [] ds st = refl
registry_run-append ((c, now) ∷ cs) ds st = registry_run-append cs ds (registry_step c now st)

pub Refines-trans :
    {s : Settings} {pool q t : Pool} → Refines s pool q → Refines s q t → Refines s pool t
Refines-trans {s = s} {pool = pool} {t = t} a b = record {
  calls = a.calls ++ b.calls;
  fresh =
      FreshRun-append s a.calls b.calls pool.jobs a.fresh
        (subst (FreshRun s.lib b.calls) a.jobs b.fresh);
  jobs = b.jobs ∙ ap (run s.lib b.calls) a.jobs ∙ sym (run-append s a.calls b.calls pool.jobs);
  reports = a.reports ++ b.reports;
  registry =
      b.registry
      ∙ ap (registry_run b.reports) a.registry
      ∙ sym (registry_run-append a.reports b.reports pool.registry);
}

-- Neither jobs nor workers were written.
pub untouched :
    {s : Settings} {pool t : Pool}
    → t.jobs ≡ pool.jobs
    → t.registry ≡ pool.registry
    → Refines s pool t
unfolding run registry_run
untouched j r = record { calls = []; fresh = tt; jobs = j; reports = []; registry = r }

-- One call of the job store that brings no job.
pub one_call :
    {s : Settings} {pool t : Pool} (c : Call)
    → Fresh c pool.jobs
    → t.jobs ≡ step s.lib c (s.clock pool.readings) pool.jobs
    → t.registry ≡ pool.registry
    → Refines s pool t
unfolding run registry_run
one_call {s = s} {pool = pool} c f j r = record {
  calls = (c, s.clock pool.readings) ∷ [];
  fresh = (f, tt);
  jobs = j;
  reports = [];
  registry = r;
}
