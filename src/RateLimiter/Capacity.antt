-- ===== src/RateLimiter/Capacity.antt =====
-- How many keys a rate limiter holds.
use outbound_gpu_worker_pool.Base.{
  ℕ, ◌+◌, ◌≤◌, String, ◌≡◌, inl, inr, false, ◌&&◌, none, some, List, [], ◌∷◌, arith, leb,
  Bool-cases, Option-cases, length, length-append, ℤ_eq, ◌==◌, ℕ_eq, String_eq, Option_eq, List_eq,
  Dict, get,
}
use outbound_gpu_worker_pool.RateLimiter.{Bucket, drop_idle, remove, is_new, allow, RateLimiter}
use outbound_gpu_worker_pool.RateLimiter.Buckets.{length-drop_idle}
use outbound_gpu_worker_pool.RateLimiter.Window.{after_calls}

length-remove_known :
    (k : String) (b : Bucket) (d : Dict Bucket)
    → get k d ≡ some b
    → length (remove k d) + 1 ≡ length d
unfolding remove get
length-remove_known k b [] h = cc
length-remove_known k b ((j, c) ∷ d) h = elim (Bool-cases (j == k)) [
  | inl e ↦ rw (e, remove) (omega arith)
  | inr e ↦ rw (e, remove) (omega (arith, length-remove_known k b d (ground (arith, h, e))))
]

length-remove : (k : String) (d : Dict Bucket) → length (remove k d) ≤ length d
unfolding remove
length-remove k [] = omega arith
length-remove k ((j, c) ∷ d) = elim (Bool-cases (j == k)) [
  | inl e ↦ rw (e, remove) (omega arith)
  | inr e ↦ rw (e, remove) (omega (arith, length-remove k d))
]

allow-length :
    (k : String) (now : ℕ) (l : RateLimiter)
    → length l.buckets ≤ l.max_keys
    → length (allow k now l).1.buckets ≤ (allow k now l).1.max_keys
unfolding allow
allow-length k now l h =
    let d = drop_idle now l.buckets in
    let m = length-drop_idle now l.buckets in
    elim (Bool-cases (is_new (get k d) && leb l.max_keys (length d))) [
      | inl e ↦ rw (e, allow) (omega (arith, h, m))
      | inr e ↦
          rw (e, allow) (omega (arith, h, m, length-append (remove k d) ((k, _) ∷ []), room d m e))
    ]
  where
    full :
        (d : Dict Bucket)
        → get k d ≡ none
        → (is_new (get k d) && leb l.max_keys (length d)) ≡ false
        → length d + 1 ≤ l.max_keys
    full d g e = ground (arith, g, e)

    room :
        (d : Dict Bucket)
        → length d ≤ length l.buckets
        → (is_new (get k d) && leb l.max_keys (length d)) ≡ false
        → length (remove k d) + 1 ≤ l.max_keys
    room d m e = elim (Option-cases (get k d)) [
      | inr (b, g) ↦ omega (arith, h, m, length-remove_known k b d g)
      | inl g ↦ omega (arith, length-remove k d, full d g e)
    ]

-- A limiter never holds more keys than its bound, however many keys call.
pub after_calls-length :
    (cs : List (String × ℕ)) (l : RateLimiter)
    → length l.buckets ≤ l.max_keys
    → length (after_calls cs l).buckets ≤ (after_calls cs l).max_keys
unfolding after_calls
after_calls-length [] l h = h
after_calls-length ((k, now) ∷ cs) l h =
    after_calls-length cs (allow k now l).1 (allow-length k now l h)
