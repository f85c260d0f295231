-- ===== src/JobStore/Sweep.antt =====
-- `expire_exhausted`: what the sweep does to each job.
use outbound_gpu_worker_pool.Base.{
  ℕ, ◌<◌, String, ◌≡◌, refl, inl, inr, true, Option, none, some, [], ◌∷◌, arith, if◌then◌else◌,
  ltb→lt, Bool-cases, ◌≤ℤ◌, pos, Dict, get,
}
use outbound_gpu_worker_pool.Contracts.{processing, failed, temporary_failure, JobRecord}
use outbound_gpu_worker_pool.JobStore.{JobStore}
use outbound_gpu_worker_pool.JobStore.Settling.{
  settled, is_exhausted, exhausted_record, expire_entries, expire_exhausted,
}
use outbound_gpu_worker_pool.JobStore.Keyed.{Absent, Keyed}
use outbound_gpu_worker_pool.JobStore.Leasing.{expired_by}
use outbound_gpu_worker_pool.JobStore.Lifecycle.{is_processing→eq}

abbrev pub sweep : ℕ → JobRecord → JobRecord
sweep now r = if is_exhausted now r then exhausted_record now r else r

abbrev pub sweep_option : ℕ → Option JobRecord → Option JobRecord
sweep_option now none = none
sweep_option now (some r) = some (sweep now r)

get-expire_entries :
    (now : ℕ) (k : String) (d : Dict JobRecord)
    → get k (expire_entries now d).1 ≡ sweep_option now (get k d)
unfolding expire_entries get
get-expire_entries now k [] = refl
get-expire_entries now k ((j, r) ∷ d) = elim (Bool-cases (is_exhausted now r)) [
  | inl e ↦ rw (e, expire_entries) (ground (arith, get-expire_entries now k d))
  | inr e ↦ rw (e, expire_entries) (ground (arith, get-expire_entries now k d))
]

Absent-expire :
    (now : ℕ) (k : String) (d : Dict JobRecord) → Absent k d → Absent k (expire_entries now d).1
unfolding expire_entries
Absent-expire now k [] h = tt
Absent-expire now k ((j, r) ∷ d) h = elim (Bool-cases (is_exhausted now r)) [
  | inl e ↦ rw (e, expire_entries) (h.0, Absent-expire now k d h.1)
  | inr e ↦ rw (e, expire_entries) (h.0, Absent-expire now k d h.1)
]

pub expire_entries-Keyed : (now : ℕ) (d : Dict JobRecord) → Keyed d → Keyed (expire_entries now d).1
unfolding expire_entries exhausted_record
expire_entries-Keyed now [] h = tt
expire_entries-Keyed now ((j, r) ∷ d) h = elim (Bool-cases (is_exhausted now r)) [
  | inl e ↦ rw (e, expire_entries) (h.0, Absent-expire now j d h.1, expire_entries-Keyed now d h.2)
  | inr e ↦ rw (e, expire_entries) (h.0, Absent-expire now j d h.1, expire_entries-Keyed now d h.2)
]

pub get-expire_exhausted :
    (now : ℕ) (k : String) (st : JobStore)
    → get k (expire_exhausted now st).1.records ≡ sweep_option now (get k st.records)
unfolding expire_exhausted
get-expire_exhausted now k st = get-expire_entries now k st.records

-- The job is processing, its lease has run out, and no attempt of its budget is left.
abbrev pub IsSpent : ℕ → JobRecord → Type 0
IsSpent now r =
    (r.status ≡ processing)
    × ((t : ℕ) × (r.lease_until ≡ some t) × (t < now))
    × (r.attempt_budget ≤ℤ pos r.attempts)

-- What the sweep makes of the record under an id.
pub data Swept (now : ℕ) (before after : Option JobRecord) : Type 0 where
  missing : before ≡ none → after ≡ none → Swept now before after
  untouched :
      (r : JobRecord) → before ≡ some r → ¬ IsSpent now r → after ≡ before → Swept now before after
  given_up :
      (r : JobRecord)
      → before ≡ some r
      → IsSpent now r
      → after
        ≡ some (record r {
          status = failed;
          error = some "attempt budget exhausted";
          failure_code = some temporary_failure;
          retryable = true;
          claim_token = none;
          leased_by = none;
          lease_until = none;
          updated_at = now;
        })
      → Swept now before after

expired_by-run_out :
    (o : Option ℕ) (now : ℕ) → expired_by o now ≡ true → (t : ℕ) × (o ≡ some t) × (t < now)
expired_by-run_out none now h = absurd (ground (arith, h))
expired_by-run_out (some t) now h = (t, refl, ltb→lt t now h)

is_exhausted-IsSpent : (now : ℕ) (r : JobRecord) → is_exhausted now r ≡ true → IsSpent now r
unfolding is_exhausted
is_exhausted-IsSpent now r h = (
  is_processing→eq r.status (ground (arith, h)),
  expired_by-run_out r.lease_until now (ground (arith, h)),
  ground (arith, h),
)

IsSpent-is_exhausted : (now : ℕ) (r : JobRecord) → IsSpent now r → is_exhausted now r ≡ true
unfolding is_exhausted
IsSpent-is_exhausted now r (processes, (t, until, run_out), none_left) =
    rw (is_exhausted, processes, until) (ground (arith, run_out, none_left))

sweep-Swept : (now : ℕ) (o : Option JobRecord) → Swept now o (sweep_option now o)
unfolding exhausted_record settled
sweep-Swept now none = missing refl refl
sweep-Swept now (some r) = elim (Bool-cases (is_exhausted now r)) [
  | inl e ↦ rw e (given_up r refl (is_exhausted-IsSpent now r e) refl)
  | inr e ↦ rw e (
      untouched r refl (λ spent. absurd (ground (arith, IsSpent-is_exhausted now r spent, e))) refl)
]

-- The sweep fails exactly the processing jobs whose lease has run out and whose attempts are spent:
-- under an id, such a job is failed with the budget's error, as a temporary failure that may be
-- retried, and without a lease; every other job is untouched, and a missing id stays missing.
pub expire_exhausted-Swept :
    (now : ℕ) (k : String) (st : JobStore)
    → Swept now (get k st.records) (get k (expire_exhausted now st).1.records)
expire_exhausted-Swept now k st =
    rw (get-expire_exhausted now k st) (sweep-Swept now (get k st.records))
