-- ===== src/Tests/Stores.antt =====
-- The theorems on the job store at concrete stores and calls.
use outbound_gpu_worker_pool.Base.{
  String, ◌≡◌, refl, ◌≢◌, inl, false, some, ◌∷◌, arith, eq_iff, ℤ_eq, ◌==◌, ℕ_eq, String_eq,
  Option_eq, List_eq, get, values,
}
use outbound_gpu_worker_pool.Validation.Bounds.{NoRepeat}
use outbound_gpu_worker_pool.JobStore.{new_record, is_processing, is_queued, JobStore}
use outbound_gpu_worker_pool.JobStore.Leasing.{
  satisfies_requirements, is_leasable, earliest, leased_record, is_candidate, lease,
}
use outbound_gpu_worker_pool.JobStore.Settling.{expire_exhausted, queue_depth}
use outbound_gpu_worker_pool.JobStore.Keyed.{Keyed}
use outbound_gpu_worker_pool.JobStore.Selection.{lease-Selects, Selects}
use outbound_gpu_worker_pool.JobStore.Sweep.{expire_exhausted-Swept, Swept}
use outbound_gpu_worker_pool.JobStore.Evolution.{step, run, step-Effect, submits, leases, Effect}
use outbound_gpu_worker_pool.JobStore.History.{FreshRun, run-StoreIsValid, StoreIsValid}
use outbound_gpu_worker_pool.JobStore.Fencing.{NotUnder, Unminted, run-Refused, Refused}
use outbound_gpu_worker_pool.JobStore.Idempotency.{idempotency_keys, run-NoRepeat}
use outbound_gpu_worker_pool.JobStore.Depth.{tally, serves, depth_at, queue_depth-tally}
use outbound_gpu_worker_pool.Tests.Samples.{
  python, upscale, worker, no_store, waiting, two_waiting, one_waiting, history,
}

pub history-FreshRun : (st : JobStore) → FreshRun python history st
unfolding history
history-FreshRun st = (tt, (tt, (tt, (tt, (tt, (tt, tt))))))

pub one_waiting-Keyed : Keyed one_waiting.records
unfolding one_waiting new_record
one_waiting-Keyed = (refl, tt, tt)

pub get-one_waiting : get "job-1" one_waiting.records ≡ some waiting
unfolding one_waiting get
get-one_waiting = refl

pub no_store-StoreIsValid : StoreIsValid no_store
unfolding get
no_store-StoreIsValid = record { keyed = tt; jobs = λ k r e. cc }

step-Effect_example :
    Effect python
      (leases worker "token-1")
      one_waiting
      (step python (leases worker "token-1") 2000 one_waiting)
step-Effect_example =
    step-Effect python (leases worker "token-1") 2000 one_waiting one_waiting-Keyed

-- The first call leases the job, so the history does reach the lifecycle's states.
leases_the_job :
    (lease python worker "token-1" 2000 one_waiting).0
    ≡ some (leased_record worker "token-1" 2000 waiting)
unfolding lease one_waiting waiting new_record is_candidate satisfies_requirements is_leasable
    leased_record earliest get
leases_the_job = refl

run-StoreIsValid_example : StoreIsValid (run python ((submits upscale, 1000) ∷ history) no_store)
unfolding get
run-StoreIsValid_example =
    run-StoreIsValid python ((submits upscale, 1000) ∷ history) no_store
      (inl refl, history-FreshRun _) no_store-StoreIsValid

some-differs : (a b : String) → (a == b) ≡ false → some a ≢ some b
some-differs a b h = λ e. ground (arith, eq_iff a b)

history-Unminted : Unminted "token-0" history
unfolding history
history-Unminted =
    (some-differs _ _ refl, (λ e. cc, (some-differs _ _ refl, (λ e. cc, (λ e. cc, (λ e. cc, tt))))))

waiting-NotUnder : NotUnder "token-0" (get "job-1" one_waiting.records)
unfolding one_waiting waiting new_record get
waiting-NotUnder = λ e. cc

run-Refused_example : Refused "job-1" "token-0" (run python history one_waiting)
run-Refused_example =
    run-Refused python "job-1" "token-0" history one_waiting (history-FreshRun one_waiting)
      one_waiting-Keyed history-Unminted waiting-NotUnder

run-NoRepeat_example : NoRepeat (idempotency_keys (run python history one_waiting).records)
unfolding one_waiting
run-NoRepeat_example =
    run-NoRepeat python history one_waiting (history-FreshRun one_waiting) one_waiting-Keyed
      (λ i. i, tt)

lease-Selects_example :
    Selects python worker "token-1" 2000 two_waiting
      (lease python worker "token-1" 2000 two_waiting)
lease-Selects_example = lease-Selects python worker "token-1" 2000 two_waiting

expire_exhausted-Swept_example :
    Swept 9000
      (get "job-1" one_waiting.records)
      (get "job-1" (expire_exhausted 9000 one_waiting).1.records)
expire_exhausted-Swept_example = expire_exhausted-Swept 9000 "job-1" one_waiting

queue_depth-tally_example :
    ((queue_depth two_waiting).queued_jobs
      ≡ tally (λ r. is_queued r.status) (values two_waiting.records))
    × ((queue_depth two_waiting).processing_jobs
        ≡ tally (λ r. is_processing r.status) (values two_waiting.records))
    × ((depth_at "image.upscale.v1" (queue_depth two_waiting).by_capability).queued_jobs
        ≡ tally (serves "image.upscale.v1" is_queued) (values two_waiting.records))
    × ((depth_at "image.upscale.v1" (queue_depth two_waiting).by_capability).processing_jobs
        ≡ tally (serves "image.upscale.v1" is_processing) (values two_waiting.records))
queue_depth-tally_example = queue_depth-tally two_waiting "image.upscale.v1"
