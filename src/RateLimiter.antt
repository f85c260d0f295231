-- ===== src/RateLimiter.antt =====
-- `RateLimiter` of service.py. A bucket holds tokens in units of 1/60,000,000, so that a limit of
-- `n` per minute refills `n` units in a microsecond and no division is left; the source computes
-- the same numbers in floats. An `OrderedDict` is its entries, the oldest first.
pub mod Buckets
pub mod Budget
pub mod Window
pub mod Capacity
use outbound_gpu_worker_pool.Base.{
  ℕ, ◌+◌, ◌-◌, ◌*◌, String, Bool, true, false, ◌&&◌, ◌||◌, Option, none, some, [], ◌∷◌, ◌++◌, ltb,
  leb, if◌then◌else◌, length, ℤ_eq, ◌==◌, ℕ_eq, String_eq, Option_eq, List_eq, Dict, get,
}
use outbound_gpu_worker_pool.Contracts.{value_error, Result, ok, err}

abbrev pub one_token : ℕ
one_token = 60000000

abbrev pub one_minute : ℕ
one_minute = 60000000

-- Tokens left, and the time of the last call.
abbrev pub Bucket : Type 0
Bucket = ℕ × ℕ

pub record RateLimiter : Type 0 where
  pub limit : ℕ
  pub max_keys : ℕ
  pub buckets : Dict Bucket

unfoldable pub new_rate_limiter : ℕ → ℕ → Result RateLimiter
new_rate_limiter limit max_keys =
    if ltb limit 1 || ltb max_keys 1
    then err (value_error "rate limits and bucket capacity must be positive")
    else ok (record { limit = limit; max_keys = max_keys; buckets = [] })

-- The `while` loop: it drops idle buckets from the front, and stops at the first that is not.
unfoldable pub drop_idle : ℕ → Dict Bucket → Dict Bucket
drop_idle now [] = []
drop_idle now ((k, (tokens, updated)) ∷ d) =
    let rest = drop_idle now d in
    if ltb (now - updated) one_minute then (k, (tokens, updated)) ∷ d else rest

-- `del d[k]`; `d[k] = v` with `move_to_end` is this with the entry at the end.
unfoldable pub remove : String → Dict Bucket → Dict Bucket
remove k [] = []
remove k ((j, b) ∷ d) = if j == k then d else (j, b) ∷ remove k d

-- `min(limit, tokens)`
abbrev pub capped : ℕ → ℕ → ℕ
capped limit tokens = if ltb tokens limit then tokens else limit

abbrev pub capacity : ℕ → ℕ
capacity limit = limit * one_token

-- `self._buckets.get(key, (self._limit, now))`
abbrev pub bucket_or_full : ℕ → ℕ → Option Bucket → Bucket
bucket_or_full limit now none = (capacity limit, now)
bucket_or_full limit now (some b) = b

-- A clock that went back refills nothing: subtraction stops at 0.
abbrev pub refilled : ℕ → ℕ → Bucket → ℕ
refilled limit now (tokens, updated) = capped (capacity limit) (tokens + (now - updated) * limit)

abbrev pub is_new : Option Bucket → Bool
is_new none = true
is_new (some b) = false

-- The token is taken where there is one.
abbrev pub take_token : ℕ → Bool × ℕ
take_token tokens = if leb one_token tokens then (true, tokens - one_token) else (false, tokens)

abbrev pub put_last : String → Bucket → Dict Bucket → Dict Bucket
put_last k b d = remove k d ++ (k, b) ∷ []

abbrev pub spend : String → ℕ → RateLimiter → Dict Bucket → Bool × RateLimiter
spend key now l d =
    let (allowed, left) =
      take_token (refilled l.limit now (bucket_or_full l.limit now (get key d))) in
    (allowed, record l { buckets = put_last key (left, now) d })

unfoldable pub allow : String → ℕ → RateLimiter → Bool × RateLimiter
unfolding drop_idle
allow key now l =
    let d = drop_idle now l.buckets in
    if is_new (get key d) && leb l.max_keys (length d)
    then (false, record l { buckets = d })
    else spend key now l d
