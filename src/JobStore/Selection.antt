-- ===== src/JobStore/Selection.antt =====
-- Which job `lease` picks.
use outbound_gpu_worker_pool.Base.{
  ℕ, ◌≤◌, String, ◌≡◌, refl, sym, subst, ◌⊎◌, inl, inr, Bool, true, false, Option, none, some, List,
  [], ◌∷◌, arith, if◌then◌else◌, Bool-cases, filter, All, In, All-In, In-filter, In-filter_intro,
  ◌≤ℤ◌, ◌<ℤ◌, int_lt, int_eq, ℤ, put, values,
}
use outbound_gpu_worker_pool.Contracts.{JobRecord}
use outbound_gpu_worker_pool.JobStore.Leasing.{
  before, earliest, leased_record, is_candidate, candidates, lease_first, lease, LeaseCall,
}
use outbound_gpu_worker_pool.Stdlib.{Stdlib}
use outbound_gpu_worker_pool.JobStore.{JobStore}

-- `(priority, created_at)` of one record is at most that of another.
abbrev pub NoLater : JobRecord → JobRecord → Type 0
NoLater a b =
    (a.priority <ℤ b.priority)
    ⊎ ((a.priority ≤ℤ b.priority) × (b.priority ≤ℤ a.priority) × (a.created_at ≤ b.created_at))

NoLater-refl : (a : JobRecord) → NoLater a a
NoLater-refl a = inr (omega arith, omega arith, omega arith)

NoLater-trans : (a b c : JobRecord) → NoLater a b → NoLater b c → NoLater a c
NoLater-trans a b c (inl p) (inl q) = inl (omega arith)
NoLater-trans a b c (inl p) (inr (q, r, s)) = inl (omega arith)
NoLater-trans a b c (inr (p, q, r)) (inl s) = inl (omega arith)
NoLater-trans a b c (inr (p, q, r)) (inr (s, t, u)) = inr (omega arith, omega arith, omega arith)

int_eq→le : (a b : ℤ) → int_eq a b ≡ true → (a ≤ℤ b) × (b ≤ℤ a)
int_eq→le a b h = (ground arith, ground arith)

before→NoLater : (a b : JobRecord) → before a b ≡ true → NoLater a b
unfolding before
before→NoLater a b h = elim (Bool-cases (int_lt a.priority b.priority)) [
  | inl e ↦ inl (ground arith)
  | inr e ↦ inr (ground arith, ground arith, ground arith)
]

not-before→NoLater : (a b : JobRecord) → before a b ≡ false → NoLater b a
unfolding before
not-before→NoLater a b h = elim (Bool-cases (int_lt b.priority a.priority)) [
  | inl e ↦ inl (ground arith)
  | inr e ↦ inr (ground arith, ground arith, ground arith)
]

pick-In :
    (t : Bool) (b r : JobRecord) (rs : List JobRecord)
    → In (earliest r rs) (r ∷ rs)
    → In (earliest b rs) (b ∷ rs)
    → In (earliest (if t then r else b) rs) (b ∷ r ∷ rs)
pick-In true b r rs h k = inr h
pick-In false b r rs h (inl e) = inl e
pick-In false b r rs h (inr i) = inr (inr i)

pub earliest-In : (b : JobRecord) (rs : List JobRecord) → In (earliest b rs) (b ∷ rs)
unfolding earliest
earliest-In b [] = inl refl
earliest-In b (r ∷ rs) = pick-In (before r b) b r rs (earliest-In r rs) (earliest-In b rs)

pick-NoLater :
    (t : Bool) (m b r : JobRecord)
    → before r b ≡ t
    → NoLater m (if t then r else b)
    → NoLater m b × NoLater m r
pick-NoLater true m b r e h = (NoLater-trans m r b h (before→NoLater r b e), h)
pick-NoLater false m b r e h = (h, NoLater-trans m b r h (not-before→NoLater r b e))

pub earliest-NoLater :
    (b : JobRecord) (rs : List JobRecord) → All (NoLater (earliest b rs)) (b ∷ rs)
unfolding earliest
earliest-NoLater b [] = (NoLater-refl b, tt)
earliest-NoLater b (r ∷ rs) =
    let h = earliest-NoLater (if before r b then r else b) rs in
    let m = earliest (if before r b then r else b) rs in
    let p = pick-NoLater (before r b) m b r refl h.0 in (p.0, (p.1, h.1))

-- What `lease` promises: nothing when no job is a candidate, and otherwise the first candidate in
-- the order of priority and age, under the caller's name and the new token.
pub data Selects (lib : Stdlib) (c : LeaseCall) (token : String) (now : ℕ) (st : JobStore)
    : Option JobRecord × JobStore → Type 0 where
  nothing_free :
      ((r : JobRecord) → In r (values st.records) → is_candidate lib c now r ≡ false)
      → Selects lib c token now st (none, st)
  chosen :
      (r : JobRecord)
      → In r (values st.records)
      → is_candidate lib c now r ≡ true
      → ((x : JobRecord) → In x (values st.records) → is_candidate lib c now x ≡ true → NoLater r x)
      → Selects lib c token now st (
        some (leased_record c token now r),
        record { records = put r.job_id (leased_record c token now r) st.records },
      )

-- A job that the filter dropped is no candidate.
dropped :
    (p : JobRecord → Bool) (r : JobRecord) (xs : List JobRecord)
    → In r xs
    → filter p xs ≡ []
    → p r ≡ false
dropped p r xs i e = elim (Bool-cases (p r)) [
  | inl h ↦ absurd (subst (In r) e (In-filter_intro p r xs i h))
  | inr h ↦ h
]

lease_first-Selects :
    (lib : Stdlib) (c : LeaseCall) (token : String) (now : ℕ) (st : JobStore) (rs : List JobRecord)
    → candidates lib c now st ≡ rs
    → Selects lib c token now st (lease_first lib c token now st rs)
lease_first-Selects lib c token now st [] e =
    nothing_free λ r i. dropped (is_candidate lib c now) r (values st.records) i e
lease_first-Selects lib c token now st (r ∷ rs) e =
    let p =
      In-filter (is_candidate lib c now) (earliest r rs) (values st.records)
        (subst (In (earliest r rs)) (sym e) (earliest-In r rs)) in
    chosen (earliest r rs) p.0 p.1 λ x i h.
      All-In (NoLater (earliest r rs)) x (r ∷ rs) (earliest-NoLater r rs)
        (subst (In x) e (In-filter_intro (is_candidate lib c now) x (values st.records) i h))

-- `lease` returns nothing and leaves the store alone exactly when no job in it is a candidate for
-- the caller; otherwise it leases a candidate that no other candidate precedes by priority, and
-- then by age, and writes that job alone.
pub lease-Selects :
    (lib : Stdlib) (c : LeaseCall) (token : String) (now : ℕ) (st : JobStore)
    → Selects lib c token now st (lease lib c token now st)
unfolding lease
lease-Selects lib c token now st = lease_first-Selects lib c token now st _ refl
