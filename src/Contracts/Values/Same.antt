-- ===== src/Contracts/Values/Same.antt =====
-- Python's `==` of a payload with itself.
use outbound_gpu_worker_pool.Base.{
  ℕ, String, ◌≡◌, refl, ◌≢◌, true, false, some, arith, eq_iff, nat_eq, int_eq_iff,
}
use outbound_gpu_worker_pool.Contracts.Values.{
  finite, infinity, nan, null, bool, int, float, str, list, dict, nil, cons, end, field, scale,
  number?, numbers_eq, field_get, fields_len, value_eq, items_eq, fields_sub, Value, Items, Fields,
}

-- The keys of a dict differ, which is what makes it one.
abbrev pub NoField : String → Fields → Type 0
NoField k end = Unit {0}
NoField k (field j v fs) = (j ≢ k) × NoField k fs

-- No nan, and no dict with a key twice.
abbrev mutual
  pub Tidy : Value → Type 0
  Tidy (float nan) = ⊥
  Tidy (list xs) = TidyItems xs
  Tidy (dict fs) = TidyFields fs
  Tidy _ = Unit {0}

  pub TidyItems : Items → Type 0
  TidyItems nil = Unit {0}
  TidyItems (cons x xs) = Tidy x × TidyItems xs

  pub TidyFields : Fields → Type 0
  TidyFields end = Unit {0}
  TidyFields (field k v fs) = NoField k fs × Tidy v × TidyFields fs

-- Each field of the first dict is one of the second.
abbrev Found : Fields → Fields → Type 0
Found end gs = Unit {0}
Found (field k v fs) gs = (field_get k gs ≡ some v) × Found fs gs

Found-field :
    (fs gs : Fields) (k : String) (v : Value) → NoField k fs → Found fs gs → Found fs (field k v gs)
unfolding field_get
Found-field end gs k v n h = tt
Found-field (field j w fs) gs k v n h =
    (ground (arith, eq_iff k j, h.0), Found-field fs gs k v n.1 h.1)

Found-refl : (fs : Fields) → TidyFields fs → Found fs fs
unfolding field_get
Found-refl end t = tt
Found-refl (field k v fs) t =
    (ground (arith, eq_iff k k), Found-field fs fs k v t.0 (Found-refl fs t.2))

nat_eq_refl : (n : ℕ) → nat_eq n n ≡ true
nat_eq_refl n = ground arith

mutual
  unfolding value_eq numbers_eq number?

  same : (v : Value) → Tidy v → value_eq v v ≡ true
  same null t = refl
  same (bool true) t = refl
  same (bool false) t = refl
  same (int n) t = (int_eq_iff (scale n) (scale n)).1 refl
  same (float (finite n)) t = (int_eq_iff n n).1 refl
  same (float (infinity true)) t = refl
  same (float (infinity false)) t = refl
  same (float nan) t = absurd t
  same (str s) t = (eq_iff s s).1 refl
  same (list xs) t = same_items xs t
  same (dict fs) t = rw (nat_eq_refl (fields_len fs)) (same_fields fs fs t (Found-refl fs t))

  same_items : (xs : Items) → TidyItems xs → items_eq xs xs ≡ true
  same_items nil t = refl
  same_items (cons x xs) t = rw (same x t.0) (same_items xs t.1)

  same_fields : (fs gs : Fields) → TidyFields fs → Found fs gs → fields_sub fs gs ≡ true
  same_fields end gs t h = refl
  same_fields (field k v fs) gs t h = rw (h.0, same v t.1) (same_fields fs gs t.2 h.1)

-- A value without nans, whose dicts have no key twice, compares equal to itself.
pub value_eq_refl : (v : Value) → Tidy v → value_eq v v ≡ true
value_eq_refl v t = same v t
