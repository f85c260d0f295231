-- ===== src/RateLimiter/Window.antt =====
-- What a rate limiter promises of each key: no more calls than a token bucket allows.
use native.Mathlib.Nat.{mul-le-mul_right, add-mul}
use outbound_gpu_worker_pool.Base.{
  ℕ, ◌+◌, ◌-◌, ◌*◌, ◌≤◌, String, ◌≡◌, refl, subst, Bool, true, false, List, [], ◌∷◌, arith, ℤ_eq,
  ◌==◌, ℕ_eq, String_eq, Option_eq, List_eq, get,
}
use outbound_gpu_worker_pool.RateLimiter.{
  one_token, Bucket, capacity, bucket_or_full, allow, RateLimiter,
}
use outbound_gpu_worker_pool.RateLimiter.Buckets.{Unique}
use outbound_gpu_worker_pool.RateLimiter.Budget.{
  level, capped-le, level-later, cost, allow-level, allow-kept,
}

-- Calls with their times, from a time on, on a clock that does not go back.
abbrev pub InOrder : ℕ → List (String × ℕ) → Type 0
InOrder start [] = Unit {0}
InOrder start ((key, now) ∷ cs) = (start ≤ now) × InOrder now cs

abbrev pub end_of : ℕ → List (String × ℕ) → ℕ
end_of start [] = start
end_of start ((key, now) ∷ cs) = end_of now cs

unfoldable pub after_calls : List (String × ℕ) → RateLimiter → RateLimiter
after_calls [] l = l
after_calls ((key, now) ∷ cs) l = after_calls cs (allow key now l).1

abbrev one_if : Bool → Bool → ℕ
one_if true true = 1
one_if _ _ = 0

-- How many of the calls for a key were allowed.
unfoldable pub allowed_calls : String → List (String × ℕ) → RateLimiter → ℕ
allowed_calls k [] l = 0
allowed_calls k ((key, now) ∷ cs) l =
    one_if (key == k) (allow key now l).0 + allowed_calls k cs (allow key now l).1

start-le-end : (start : ℕ) (cs : List (String × ℕ)) → InOrder start cs → start ≤ end_of start cs
start-le-end start [] h = omega arith
start-le-end start ((key, now) ∷ cs) h = omega (arith, h.0, start-le-end now cs h.1)

cost-one_if : (a b : Bool) → cost a b ≡ one_if a b * one_token
cost-one_if true true = refl
cost-one_if true false = refl
cost-one_if false true = refl
cost-one_if false false = refl

allowed-level :
    (k : String) (cs : List (String × ℕ)) (start : ℕ) (l : RateLimiter)
    → InOrder start cs
    → Unique l.buckets
    → allowed_calls k cs l * one_token ≤ level k start l + (end_of start cs - start) * l.limit
unfolding allowed_calls
allowed-level k [] start l h u = omega arith
allowed-level k ((key, now) ∷ cs) start l h u =
    let kept = allow-kept key now l u in
    let ih = allowed-level k cs now (allow key now l).1 h.1 kept.2 in
    let ih' =
      subst
        (λ (x : ℕ).
          allowed_calls k cs (allow key now l).1 * one_token
          ≤ level k now (allow key now l).1 + (end_of now cs - now) * x)
        kept.0 ih in
    let s = allow-level k key now l u in
    let c = cost-one_if (key == k) (allow key now l).0 in
    let t = level-later l.limit start now (get k l.buckets) h.0 in
    let m = add-mul (now - start) (end_of now cs - now) l.limit in
    let e =
      mul-le-mul_right {m = (now - start) + (end_of now cs - now)} {n = end_of now cs - start}
        l.limit (omega (arith, h.0, start-le-end now cs h.1)) in
    omega (arith, ih', s, c, t, m, e)

-- Whatever the keys of a row of calls are, on a clock that does not go back: the calls that a
-- limiter allows for one key are no more than its limit, and the limit's share of the time between
-- the start and the last call, so many per minute. Dropping idle buckets gives no key more. (No key
-- stands twice in the limiter.)
pub allowed_calls-le :
    (k : String) (cs : List (String × ℕ)) (start : ℕ) (l : RateLimiter)
    → InOrder start cs
    → Unique l.buckets
    → allowed_calls k cs l * one_token ≤ l.limit * one_token + (end_of start cs - start) * l.limit
allowed_calls-le k cs start l h u = omega (
  arith,
  allowed-level k cs start l h u,
  capped-le (capacity l.limit) (level_arg (bucket_or_full l.limit start (get k l.buckets))),
)
  where
    level_arg : Bucket → ℕ
    level_arg (tokens, updated) = tokens + (start - updated) * l.limit
