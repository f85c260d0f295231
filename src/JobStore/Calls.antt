-- ===== src/JobStore/Calls.antt =====
-- What each call of the store does to the job under one id.
use outbound_gpu_worker_pool.Base.{
  ℕ, String, ◌≡◌, refl, sym, ap, ◌∙◌, subst, ◌≢◌, ◌⊎◌, inl, inr, Option, none, some, List, [], ◌∷◌,
  arith, eq_iff, Bool-cases, In, ℤ_eq, ◌==◌, ℕ_eq, String_eq, Option_eq, List_eq, Dict, get, put,
  values, get-put, get-In,
}
use outbound_gpu_worker_pool.Contracts.{JobSubmission, JobRecord}
use outbound_gpu_worker_pool.Stdlib.{Stdlib}
use outbound_gpu_worker_pool.Validation.Bounds.{InRange, validate_job_submission-IsBounded}
use outbound_gpu_worker_pool.JobStore.{new_record, find_idempotent, JobStore}
use outbound_gpu_worker_pool.JobStore.Settling.{is_exhausted, exhausted_record, expire_exhausted}
use outbound_gpu_worker_pool.JobStore.Lifecycle.{Lifecycle-SameRequest, Lifecycle, spent}
use outbound_gpu_worker_pool.JobStore.Keyed.{Keyed, put-Keyed, get-job_id}
use outbound_gpu_worker_pool.JobStore.Sweep.{
  sweep_option, expire_entries-Keyed, get-expire_exhausted,
}
use outbound_gpu_worker_pool.JobStore.Evolution.{
  step, mint, step-Effect, Call, submits, Effect, idle, writes, creates, sweeps,
}

-- What a call may do to the job under one id.
pub data Evolves (m : Option String) (a b : Option JobRecord) : Type 0 where
  unchanged : b ≡ a → Evolves m a b
  stepped : (r s : JobRecord) → a ≡ some r → b ≡ some s → Lifecycle m r s → Evolves m a b
  created :
      (s : JobSubmission) (digest : String) (now : ℕ)
      → InRange 1 20 s.attempt_budget
      → a ≡ none
      → b ≡ some (new_record s digest now)
      → Evolves m a b

-- One write of a job that takes a step.
pub write-Evolves :
    (m : Option String) (d : Dict JobRecord) (id k : String) (r s : JobRecord)
    → get id d ≡ some r
    → Lifecycle m r s
    → Evolves m (get k d) (get k (put id s d))
write-Evolves m d id k r s e l = elim (Bool-cases (id == k)) [
  | inl q ↦
      stepped r s (ap (λ (x : String). get x d) (sym ((eq_iff id k).0 q)) ∙ e)
        (rw (get-put id k s d, q)) l
  | inr q ↦ unchanged (rw (get-put id k s d, q))
]

write-Keyed :
    (d : Dict JobRecord) (id : String) (r s : JobRecord)
    → Keyed d
    → get id d ≡ some r
    → s.job_id ≡ r.job_id
    → Keyed (put id s d)
write-Keyed d id r s h e q =
    subst (λ (x : String). Keyed (put x s d)) (q ∙ get-job_id id r d h e) (put-Keyed s d h)

sweep-Evolves :
    (m : Option String) (now : ℕ) (a : Option JobRecord) → Evolves m a (sweep_option now a)
sweep-Evolves m now none = unchanged refl
sweep-Evolves m now (some r) = elim (Bool-cases (is_exhausted now r)) [
  | inl e ↦ rw e (stepped r (exhausted_record now r) refl refl (spent now e refl))
  | inr e ↦ rw e (unchanged refl)
]

pub find_idempotent-none :
    (k : String) (rs : List JobRecord) (r : JobRecord)
    → find_idempotent k rs ≡ none
    → In r rs
    → r.idempotency_key ≢ k
unfolding find_idempotent
find_idempotent-none k [] r e i = absurd i
find_idempotent-none k (x ∷ rs) r e (inl q) = λ p. ground (arith, eq_iff x.idempotency_key k)
find_idempotent-none k (x ∷ rs) r e (inr i) =
    find_idempotent-none k rs r (ground (arith, eq_iff x.idempotency_key k)) i

-- A job id is new, or its job has the idempotency key of the submission.
abbrev pub Fresh : Call → JobStore → Type 0
Fresh (submits s) st =
    (get s.job_id st.records ≡ none)
    ⊎ ((r : JobRecord) × (get s.job_id st.records ≡ some r)
        × (r.idempotency_key ≡ s.idempotency_key))
Fresh _ st = Unit {0}

pub Fresh-none :
    (s : JobSubmission) (st : JobStore)
    → Fresh (submits s) st
    → find_idempotent s.idempotency_key (values st.records) ≡ none
    → get s.job_id st.records ≡ none
Fresh-none s st (inl e) f = e
Fresh-none s st (inr (r, e, q)) f = absurd (
    find_idempotent-none s.idempotency_key (values st.records) r f (get-In s.job_id r st.records e)
      q)

Effect-Evolves :
    (lib : Stdlib) (c : Call) (st t : JobStore) (k : String)
    → Effect lib c st t
    → Fresh c st
    → Evolves (mint c) (get k st.records) (get k t.records)
unfolding new_record
Effect-Evolves lib c st t k (idle e) f = rw e (unchanged refl)
Effect-Evolves lib c st t k (writes id r s g l e) f =
    rw e (write-Evolves (mint c) st.records id k r s g l)
Effect-Evolves lib c st t k (creates s digest now q v d n e) f =
    let none_yet = Fresh-none s st (subst (λ (x : Call). Fresh x st) q f) n in
    rw e (elim (Bool-cases (s.job_id == k)) [
      | inl p ↦
          created s digest now (validate_job_submission-IsBounded lib s v).attempt_budget
            (ap (λ (x : String). get x st.records) (sym ((eq_iff s.job_id k).0 p)) ∙ none_yet)
            (rw (get-put s.job_id k (new_record s digest now) st.records, p))
      | inr p ↦ unchanged (rw (get-put s.job_id k (new_record s digest now) st.records, p))
    ])
Effect-Evolves lib c st t k (sweeps now e) f =
    rw (e, get-expire_exhausted now k st) (sweep-Evolves (mint c) now (get k st.records))

Effect-Keyed :
    (lib : Stdlib) (c : Call) (st t : JobStore)
    → Effect lib c st t
    → Keyed st.records
    → Keyed t.records
Effect-Keyed lib c st t (idle e) h = rw e h
Effect-Keyed lib c st t (writes id r s g l e) h =
    rw e (write-Keyed st.records id r s h g (Lifecycle-SameRequest (mint c) r s l).job_id)
Effect-Keyed lib c st t (creates s digest now q v d n e) h =
    rw e (put-Keyed (new_record s digest now) st.records h)
Effect-Keyed lib c st t (sweeps now e) h =
    rw e (unfold expire_exhausted in expire_entries-Keyed now st.records h)

-- One call, at any time, on a store keyed by the ids of its jobs, where a submission brings a fresh
-- id or that of the job with its own idempotency key: under every id the job is left alone, takes
-- one step of its life, or is new; and the store stays keyed.
pub step-Evolves :
    (lib : Stdlib) (c : Call) (now : ℕ) (st : JobStore)
    → Keyed st.records
    → Fresh c st
    → ((k : String) → Evolves (mint c) (get k st.records) (get k (step lib c now st).records))
      × Keyed (step lib c now st).records
step-Evolves lib c now st h f =
    let e = step-Effect lib c now st h in
    (λ k. Effect-Evolves lib c st _ k e f, Effect-Keyed lib c st _ e h)
