-- ===== src/JobStore/Idempotency.antt =====
-- Idempotency keys: one job for each, however often it is submitted.
use outbound_gpu_worker_pool.Base.{
  ℕ, String, ◌≡◌, refl, sym, ap, subst, ◌⊎◌, inl, inr, none, some, List, [], ◌∷◌, ◌++◌, arith,
  eq_iff, Bool-cases, In, ℤ_eq, ◌==◌, ℕ_eq, String_eq, Option_eq, List_eq, Dict, get, put, values,
}
use outbound_gpu_worker_pool.Contracts.{JobRecord}
use outbound_gpu_worker_pool.JobStore.{new_record, find_idempotent, JobStore}
use outbound_gpu_worker_pool.JobStore.Settling.{
  is_exhausted, exhausted_record, expire_entries, expire_exhausted,
}
use outbound_gpu_worker_pool.JobStore.Lifecycle.{Lifecycle-SameRequest}
use outbound_gpu_worker_pool.JobStore.Evolution.{
  step, mint, run, step-Effect, Call, Effect, idle, writes, creates, sweeps,
}
use outbound_gpu_worker_pool.JobStore.Calls.{find_idempotent-none, Fresh, Fresh-none, step-Evolves}
use outbound_gpu_worker_pool.JobStore.History.{FreshRun}
use outbound_gpu_worker_pool.Validation.Bounds.{NoRepeat}
use outbound_gpu_worker_pool.Stdlib.{Stdlib}
use outbound_gpu_worker_pool.JobStore.Keyed.{Keyed}

abbrev pub idempotency_keys : Dict JobRecord → List String
idempotency_keys [] = []
idempotency_keys ((k, r) ∷ d) = r.idempotency_key ∷ idempotency_keys d

keys-put_old :
    (k : String) (r s : JobRecord) (d : Dict JobRecord)
    → get k d ≡ some r
    → s.idempotency_key ≡ r.idempotency_key
    → idempotency_keys (put k s d) ≡ idempotency_keys d
unfolding get put
keys-put_old k r s [] h e = cc
keys-put_old k r s ((j, x) ∷ d) h e = elim (Bool-cases (j == k)) [
  | inl q ↦ rw (q, put) (ground arith)
  | inr q ↦
      rw (q, put)
        (ap (λ (t : List String). x.idempotency_key ∷ t) (keys-put_old k r s d (ground arith) e))
]

keys-put_new :
    (k : String) (s : JobRecord) (d : Dict JobRecord)
    → get k d ≡ none
    → idempotency_keys (put k s d) ≡ idempotency_keys d ++ s.idempotency_key ∷ []
unfolding get put
keys-put_new k s [] h = refl
keys-put_new k s ((j, x) ∷ d) h = elim (Bool-cases (j == k)) [
  | inl q ↦ absurd (ground arith)
  | inr q ↦
      rw (q, put)
        (ap (λ (t : List String). x.idempotency_key ∷ t) (keys-put_new k s d (ground arith)))
]

keys-expire :
    (now : ℕ) (d : Dict JobRecord) → idempotency_keys (expire_entries now d).1 ≡ idempotency_keys d
unfolding expire_entries exhausted_record
keys-expire now [] = refl
keys-expire now ((k, r) ∷ d) = elim (Bool-cases (is_exhausted now r)) [
  | inl e ↦
      rw (e, expire_entries) (ap (λ (t : List String). r.idempotency_key ∷ t) (keys-expire now d))
  | inr e ↦
      rw (e, expire_entries) (ap (λ (t : List String). r.idempotency_key ∷ t) (keys-expire now d))
]

-- The store's keys after a call: as before, or with one new key at the end.
abbrev Grows : JobStore → JobStore → Type 0
Grows st st' =
    (idempotency_keys st'.records ≡ idempotency_keys st.records)
    ⊎ ((k : String) × (¬ In k (idempotency_keys st.records))
        × (idempotency_keys st'.records ≡ idempotency_keys st.records ++ k ∷ []))

In-keys :
    (k : String) (d : Dict JobRecord)
    → In k (idempotency_keys d)
    → (r : JobRecord) × In r (values d) × (r.idempotency_key ≡ k)
In-keys k [] i = absurd i
In-keys k ((j, r) ∷ d) (inl e) = (r, inl refl, sym e)
In-keys k ((j, r) ∷ d) (inr i) = let (s, h, e) = In-keys k d i in (s, inr h, e)

unknown-key :
    (k : String) (d : Dict JobRecord)
    → find_idempotent k (values d) ≡ none
    → ¬ In k (idempotency_keys d)
unknown-key k d n i = let (r, h, e) = In-keys k d i in find_idempotent-none k (values d) r n h e

step-Grows :
    (lib : Stdlib) (c : Call) (st t : JobStore) → Effect lib c st t → Fresh c st → Grows st t
unfolding new_record
step-Grows lib c st t (idle e) f = inl (ap (λ (x : JobStore). idempotency_keys x.records) e)
step-Grows lib c st t (writes id r s g l e) f =
    rw e (
      inl (keys-put_old id r s st.records g (Lifecycle-SameRequest (mint c) r s l).idempotency_key))
step-Grows lib c st t (creates s digest now q v d n e) f = rw e (
    inr (
      s.idempotency_key,
      unknown-key s.idempotency_key st.records n,
      keys-put_new s.job_id _ st.records (Fresh-none s st (subst (λ (x : Call). Fresh x st) q f) n),
    ))
step-Grows lib c st t (sweeps now e) f =
    rw e (inl (unfold expire_exhausted in keys-expire now st.records))

In-append_one : (x k : String) (xs : List String) → In x (xs ++ k ∷ []) → In x xs ⊎ (x ≡ k)
In-append_one x k [] (inl e) = inr e
In-append_one x k [] (inr i) = absurd i
In-append_one x k (y ∷ xs) (inl e) = inl (inl e)
In-append_one x k (y ∷ xs) (inr i) = elim (In-append_one x k xs i) [
  | inl h ↦ inl (inr h)
  | inr e ↦ inr e
]

NoRepeat-append_one :
    (k : String) (xs : List String) → NoRepeat xs → ¬ In k xs → NoRepeat (xs ++ k ∷ [])
NoRepeat-append_one k [] h n = (λ i. i, tt)
NoRepeat-append_one k (y ∷ xs) h n = (
  λ i. elim (In-append_one y k xs i) [ inl j ↦ h.0 j | inr e ↦ n (inl (sym e)) ],
  NoRepeat-append_one k xs h.1 (λ i. n (inr i)),
)

Grows-NoRepeat :
    (st t : JobStore)
    → Grows st t
    → NoRepeat (idempotency_keys st.records)
    → NoRepeat (idempotency_keys t.records)
Grows-NoRepeat st t (inl e) h = rw e h
Grows-NoRepeat st t (inr (k, n, e)) h = rw e (NoRepeat-append_one k _ h n)

-- From a store with no idempotency key twice, no history of calls leads to one with a key twice.
-- (The store is keyed by the ids of its jobs, and each submission brings a fresh id or that of the
-- job with its own idempotency key.)
pub run-NoRepeat :
    (lib : Stdlib) (cs : List (Call × ℕ)) (st : JobStore)
    → FreshRun lib cs st
    → Keyed st.records
    → NoRepeat (idempotency_keys st.records)
    → NoRepeat (idempotency_keys (run lib cs st).records)
unfolding run
run-NoRepeat lib [] st f h n = n
run-NoRepeat lib ((c, now) ∷ cs) st f h n =
    run-NoRepeat lib cs (step lib c now st) f.1 (step-Evolves lib c now st h f.0).1
      (Grows-NoRepeat st _ (step-Grows lib c st _ (step-Effect lib c now st h) f.0) n)

keys-In :
    (r : JobRecord) (d : Dict JobRecord)
    → In r (values d)
    → In r.idempotency_key (idempotency_keys d)
keys-In r [] i = absurd i
keys-In r ((j, s) ∷ d) (inl e) = inl (ap (λ (x : JobRecord). x.idempotency_key) e)
keys-In r ((j, s) ∷ d) (inr i) = inr (keys-In r d i)

-- With distinct keys, a key finds its job.
pub find_idempotent-In :
    (r : JobRecord) (d : Dict JobRecord)
    → NoRepeat (idempotency_keys d)
    → In r (values d)
    → find_idempotent r.idempotency_key (values d) ≡ some r
unfolding find_idempotent
find_idempotent-In r [] n i = absurd i
find_idempotent-In r ((j, s) ∷ d) n (inl e) =
    rw
      (
        (eq_iff s.idempotency_key r.idempotency_key).1
            (ap (λ (x : JobRecord). x.idempotency_key) (sym e)),
        find_idempotent,
      )
      (ap (λ (x : JobRecord). some x) (sym e))
find_idempotent-In r ((j, s) ∷ d) n (inr i) =
    elim (Bool-cases (s.idempotency_key == r.idempotency_key)) [
      | inl q ↦ absurd (
          n.0 (
            subst (λ (x : String). In x (idempotency_keys d))
              (sym ((eq_iff s.idempotency_key r.idempotency_key).0 q)) (keys-In r d i)))
      | inr q ↦ rw (q, find_idempotent) (find_idempotent-In r d n.1 i)
    ]
