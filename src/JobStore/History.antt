-- ===== src/JobStore/History.antt =====
-- Whole histories of the store: what holds after any sequence of calls, whoever makes them.
use outbound_gpu_worker_pool.Base.{
  ℕ, String, ◌≡◌, refl, sym, ap, ◌∙◌, subst, Option, none, some, List, [], ◌∷◌, arith, ◌≤ℤ◌, pos,
  get,
}
use outbound_gpu_worker_pool.Contracts.{JobSubmission, JobRecord}
use outbound_gpu_worker_pool.Stdlib.{Stdlib}
use outbound_gpu_worker_pool.JobStore.{new_record, JobStore}
use outbound_gpu_worker_pool.JobStore.Lifecycle.{Lifecycle-JobIsValid, JobIsValid}
use outbound_gpu_worker_pool.JobStore.Keyed.{Keyed}
use outbound_gpu_worker_pool.JobStore.Evolution.{step, mint, run, Call}
use outbound_gpu_worker_pool.JobStore.Calls.{
  Fresh, step-Evolves, Evolves, unchanged, stepped, created,
}

-- Every job stands under its own id, and every record is valid.
pub record StoreIsValid (st : JobStore) : Type 0 where
  pub keyed : Keyed st.records
  pub jobs : (k : String) (r : JobRecord) → get k st.records ≡ some r → JobIsValid r

-- Each submission's job id is fresh when it comes.
abbrev pub FreshRun : Stdlib → List (Call × ℕ) → JobStore → Type 0
FreshRun lib [] st = Unit {0}
FreshRun lib ((c, now) ∷ cs) st = Fresh c st × FreshRun lib cs (step lib c now st)

new_record-JobIsValid :
    (s : JobSubmission) (digest : String) (now : ℕ)
    → pos 1 ≤ℤ s.attempt_budget
    → JobIsValid (new_record s digest now)
unfolding new_record
new_record-JobIsValid s digest now b = record {
  within_budget = omega arith;
  shape = (refl, refl, refl);
}

some_inj : (r s : JobRecord) → some r ≡ some s → r ≡ s
some_inj r s e = ap (λ (o : Option JobRecord). elim o [ none ↦ r | some x ↦ x ]) e

Evolves-JobIsValid :
    (m : Option String) (a b : Option JobRecord)
    → Evolves m a b
    → ((r : JobRecord) → a ≡ some r → JobIsValid r)
    → (r : JobRecord) → b ≡ some r
    → JobIsValid r
Evolves-JobIsValid m a b (unchanged e) h r q = h r (sym e ∙ q)
Evolves-JobIsValid m a b (stepped x y p e l) h r q =
    subst JobIsValid (some_inj y r (sym e ∙ q)) (Lifecycle-JobIsValid m x y l (h x p))
Evolves-JobIsValid m a b (created s digest now bound p e) h r q =
    subst JobIsValid (some_inj (new_record s digest now) r (sym e ∙ q))
      (new_record-JobIsValid s digest now bound.0)

-- One call, whatever it is and whether or not it succeeds, keeps the store valid.
pub step-StoreIsValid :
    (lib : Stdlib) (c : Call) (now : ℕ) (st : JobStore)
    → Fresh c st
    → StoreIsValid st
    → StoreIsValid (step lib c now st)
step-StoreIsValid lib c now st f v =
    let g = step-Evolves lib c now st v.keyed f in
    record {
      keyed = g.1;
      jobs = λ k. Evolves-JobIsValid (mint c) (get k st.records) _ (g.0 k) (v.jobs k);
    }

-- After any history of calls on a valid store, where each submission brings a fresh job id or that
-- of the job with its own idempotency key, the store is valid: no job has more attempts than its budget, a job
-- has a token, a holder and a deadline exactly while it is processing, a completed job has its
-- output's digest and size, a failed one its reason, a cancelled one the time.
pub run-StoreIsValid :
    (lib : Stdlib) (cs : List (Call × ℕ)) (st : JobStore)
    → FreshRun lib cs st
    → StoreIsValid st
    → StoreIsValid (run lib cs st)
unfolding run
run-StoreIsValid lib [] st f v = v
run-StoreIsValid lib ((c, now) ∷ cs) st f v =
    run-StoreIsValid lib cs (step lib c now st) f.1 (step-StoreIsValid lib c now st f.0 v)
