-- ===== src/RateLimiter/Budget.antt =====
-- The tokens that a key could spend, and what a call leaves of them.
use native.Mathlib.Nat.{mul-le-mul_right, add-mul, zero-mul}
use outbound_gpu_worker_pool.Base.{
  ℕ, ◌+◌, ◌-◌, ◌*◌, ◌≤◌, String, ◌≡◌, refl, sym, ap, ◌∙◌, subst, inl, inr, Bool, true, false, ◌&&◌,
  Option, none, some, [], ◌∷◌, arith, eq_iff, ltb, leb, Bool-cases, length, ℤ_eq, ◌==◌, ℕ_eq,
  String_eq, Option_eq, List_eq, Dict, get,
}
use outbound_gpu_worker_pool.RateLimiter.{
  one_token, one_minute, Bucket, drop_idle, capped, capacity, bucket_or_full, refilled, is_new,
  take_token, spend, allow, RateLimiter,
}
use outbound_gpu_worker_pool.RateLimiter.Buckets.{
  Unique, drop_idle-Unique, put_last-Unique, get-put_last_self, get-put_last_ne,
}

-- The tokens that a key could spend at a time.
abbrev pub level_of : ℕ → ℕ → Option Bucket → ℕ
level_of limit now o = refilled limit now (bucket_or_full limit now o)

abbrev pub level : String → ℕ → RateLimiter → ℕ
level k now l = level_of l.limit now (get k l.buckets)

pub capped-le : (a b : ℕ) → (capped a b ≤ a) × (capped a b ≤ b)
capped-le a b = (ground arith, ground arith)

capped-eq : (a b : ℕ) → a ≤ b → capped a b ≡ a
capped-eq a b h = ground arith

-- A bucket that was idle for a minute is full.
idle-full :
    (limit now tokens updated : ℕ)
    → ltb (now - updated) one_minute ≡ false
    → refilled limit now (tokens, updated) ≡ capacity limit
idle-full limit now tokens updated h =
    let m = mul-le-mul_right {m = one_minute} {n = now - updated} limit (ground arith) in
    capped-eq (capacity limit) (tokens + (now - updated) * limit) (omega (arith, m))

new-full : (limit now : ℕ) → level_of limit now none ≡ capacity limit
new-full limit now = capped-eq (capacity limit) (capacity limit + (now - now) * limit) (omega arith)

-- So an evicted bucket loses its key nothing.
drop_idle-level :
    (limit now : ℕ) (k : String) (d : Dict Bucket)
    → Unique d
    → level_of limit now (get k (drop_idle now d)) ≡ level_of limit now (get k d)
unfolding drop_idle get
drop_idle-level limit now k [] h = refl
drop_idle-level limit now k ((j, (tokens, updated)) ∷ d) h =
    elim (Bool-cases (ltb (now - updated) one_minute)) [
      | inl e ↦ rw (e, drop_idle) refl
      | inr e ↦ rw (e, drop_idle) (drop_idle-level limit now k d h.1 ∙ rest e)
    ]
  where
    rest :
        ltb (now - updated) one_minute ≡ false
        → level_of limit now (get k d) ≡ level_of limit now (get k ((j, (tokens, updated)) ∷ d))
    rest e = elim (Bool-cases (j == k)) [
      | inr n ↦ rw (n, get) refl
      | inl n ↦
          ap (level_of limit now) (subst (λ (x : String). get x d ≡ none) ((eq_iff j k).0 n) h.0)
          ∙ new-full limit now
          ∙ sym (idle-full limit now tokens updated e)
          ∙ rw (n, get) refl
    ]

-- Time refills a bucket at the limit's rate, and no faster.
pub level-later :
    (limit t u : ℕ) (o : Option Bucket)
    → t ≤ u
    → level_of limit u o ≤ level_of limit t o + (u - t) * limit
level-later limit t u none h = rw (new-full limit t, new-full limit u) (omega arith)
level-later limit t u (some (tokens, updated)) h =
    let m =
      mul-le-mul_right {m = u - updated} {n = (t - updated) + (u - t)} limit (omega (arith, h)) in
    let s = add-mul (t - updated) (u - t) limit in
    refill (capacity limit) tokens ((u - updated) * limit) ((t - updated) * limit) ((u - t) * limit)
      (omega (arith, m, s))
  where
    refill : (cap x a b c : ℕ) → a ≤ b + c → capped cap (x + a) ≤ capped cap (x + b) + c
    refill cap x a b c q = ground arith

-- What a call for one key costs another's budget, or its own.
abbrev pub cost : Bool → Bool → ℕ
cost false allowed = 0
cost true true = one_token
cost true false = 0

same_time : (n limit : ℕ) → (n - n) * limit ≡ 0
same_time n limit = ap (λ (x : ℕ). x * limit) (omega arith) ∙ zero-mul limit

take_token-level :
    (limit now tokens : ℕ)
    → cost true (take_token tokens).0 + refilled limit now ((take_token tokens).1, now) ≤ tokens
take_token-level limit now tokens = elim (Bool-cases (leb one_token tokens)) [
  | inl e ↦
      let c = capped-le (capacity limit) (tokens - one_token + (now - now) * limit) in
      rw e (omega (arith, c.1, same_time now limit, le_of_leb one_token tokens e))
  | inr e ↦
      let c = capped-le (capacity limit) (tokens + (now - now) * limit) in
      rw e (omega (arith, c.1, same_time now limit))
]
  where
    le_of_leb : (a b : ℕ) → leb a b ≡ true → a ≤ b
    le_of_leb a b h = ground arith

spend-level :
    (k j : String) (now : ℕ) (l : RateLimiter) (d : Dict Bucket)
    → Unique d
    → cost (j == k) (spend j now l d).0 + level k now (spend j now l d).1
      ≤ level_of l.limit now (get k d)
spend-level k j now l d h = elim (Bool-cases (j == k)) [
  | inr n ↦
      rw (n, get-put_last_ne k j (((take_token (level_of l.limit now (get j d))).1, now)) d n)
        (omega arith)
  | inl e ↦ rw e (
      subst
        (λ (x : String).
          cost true (spend x now l d).0 + level k now (spend x now l d).1
          ≤ level_of l.limit now (get k d))
        (sym ((eq_iff j k).0 e))
        (rw (get-put_last_self k _ d h)
          (take_token-level l.limit now (level_of l.limit now (get k d)))))
]

pub allow-level :
    (k j : String) (now : ℕ) (l : RateLimiter)
    → Unique l.buckets
    → cost (j == k) (allow j now l).0 + level k now (allow j now l).1 ≤ level k now l
unfolding allow
allow-level k j now l h =
    let d = drop_idle now l.buckets in
    let q = drop_idle-level l.limit now k l.buckets h in
    elim (Bool-cases (is_new (get j d) && leb l.max_keys (length d))) [
      | inl e ↦ rw (e, allow) (omega (arith, q, cost-false (j == k)))
      | inr e ↦
          rw (e, allow)
            (omega (arith, q, spend-level k j now l d (drop_idle-Unique now l.buckets h)))
    ]
  where
    cost-false : (b : Bool) → cost b false ≡ 0
    cost-false true = refl
    cost-false false = refl

pub allow-kept :
    (j : String) (now : ℕ) (l : RateLimiter)
    → Unique l.buckets
    → ((allow j now l).1.limit ≡ l.limit)
      × ((allow j now l).1.max_keys ≡ l.max_keys)
      × Unique (allow j now l).1.buckets
unfolding allow
allow-kept j now l h =
    let d = drop_idle now l.buckets in
    let u = drop_idle-Unique now l.buckets h in
    elim (Bool-cases (is_new (get j d) && leb l.max_keys (length d))) [
      | inl e ↦ rw (e, allow) (refl, refl, u)
      | inr e ↦ rw (e, allow) (refl, refl, put_last-Unique j _ d u)
    ]
