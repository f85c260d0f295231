-- ===== src/RateLimiter/Buckets.antt =====
-- The ordered dict of buckets: each key once, and what eviction and rewriting leave of an entry.
use outbound_gpu_worker_pool.Base.{
  ℕ, ◌-◌, ◌≤◌, String, ◌≡◌, refl, sym, ◌∙◌, subst, inl, inr, false, none, some, [], ◌∷◌, ◌++◌,
  arith, eq_iff, ltb, Bool-cases, length, ℤ_eq, ◌==◌, ℕ_eq, String_eq, Option_eq, List_eq, Dict,
  get,
}
use outbound_gpu_worker_pool.RateLimiter.{one_minute, Bucket, drop_idle, remove, put_last}

abbrev pub Unique : Dict Bucket → Type 0
Unique [] = Unit {0}
Unique ((k, b) ∷ d) = (get k d ≡ none) × Unique d

get-cons_none :
    (k j : String) (b : Bucket) (d : Dict Bucket)
    → get k ((j, b) ∷ d) ≡ none
    → ((j == k) ≡ false) × (get k d ≡ none)
unfolding get
get-cons_none k j b d h = elim (Bool-cases (j == k)) [
  | inl e ↦ absurd (ground (arith, h, e))
  | inr e ↦ (e, ground (arith, h, e))
]

pub drop_idle-none :
    (now : ℕ) (k : String) (d : Dict Bucket) → get k d ≡ none → get k (drop_idle now d) ≡ none
unfolding drop_idle
drop_idle-none now k [] h = h
drop_idle-none now k ((j, (tokens, updated)) ∷ d) h =
    elim (Bool-cases (ltb (now - updated) one_minute)) [
      | inl e ↦ rw (e, drop_idle) h
      | inr e ↦ rw (e, drop_idle) (drop_idle-none now k d (get-cons_none k j _ d h).1)
    ]

pub drop_idle-Unique : (now : ℕ) (d : Dict Bucket) → Unique d → Unique (drop_idle now d)
unfolding drop_idle
drop_idle-Unique now [] h = h
drop_idle-Unique now ((j, (tokens, updated)) ∷ d) h =
    elim (Bool-cases (ltb (now - updated) one_minute)) [
      | inl e ↦ rw (e, drop_idle) h
      | inr e ↦ rw (e, drop_idle) (drop_idle-Unique now d h.1)
    ]

pub length-drop_idle : (now : ℕ) (d : Dict Bucket) → length (drop_idle now d) ≤ length d
unfolding drop_idle
length-drop_idle now [] = omega arith
length-drop_idle now ((j, (tokens, updated)) ∷ d) =
    elim (Bool-cases (ltb (now - updated) one_minute)) [
      | inl e ↦ rw (e, drop_idle) (omega arith)
      | inr e ↦ rw (e, drop_idle) (omega (arith, length-drop_idle now d))
    ]

remove-none : (k j : String) (d : Dict Bucket) → get k d ≡ none → get k (remove j d) ≡ none
unfolding remove get
remove-none k j [] h = h
remove-none k j ((i, b) ∷ d) h =
    let x = get-cons_none k i b d h in
    elim (Bool-cases (i == j)) [
      | inl e ↦ rw (e, remove) x.1
      | inr e ↦ rw (e, remove) (rw (x.0, get) (remove-none k j d x.1))
    ]

remove-Unique : (j : String) (d : Dict Bucket) → Unique d → Unique (remove j d)
unfolding remove
remove-Unique j [] h = h
remove-Unique j ((i, b) ∷ d) h = elim (Bool-cases (i == j)) [
  | inl e ↦ rw (e, remove) h.1
  | inr e ↦ rw (e, remove) (remove-none i j d h.0, remove-Unique j d h.1)
]

get-remove_self : (k : String) (d : Dict Bucket) → Unique d → get k (remove k d) ≡ none
unfolding remove get
get-remove_self k [] h = refl
get-remove_self k ((i, b) ∷ d) h = elim (Bool-cases (i == k)) [
  | inl e ↦ rw (e, remove) (subst (λ (x : String). get x d ≡ none) ((eq_iff i k).0 e) h.0)
  | inr e ↦ rw (e, remove) (rw (e, get) (get-remove_self k d h.1))
]

get-remove_ne : (k j : String) (d : Dict Bucket) → (j == k) ≡ false → get k (remove j d) ≡ get k d
unfolding remove get
get-remove_ne k j [] n = refl
get-remove_ne k j ((i, b) ∷ d) n = elim (Bool-cases (i == j)) [
  | inl e ↦
      rw (e, remove)
        (rw (subst (λ (x : String). (x == k) ≡ false) (sym ((eq_iff i j).0 e)) n, get) refl)
  | inr e ↦ rw (e, remove) (ground (arith, get-remove_ne k j d n))
]

get-append_none : (k : String) (d c : Dict Bucket) → get k d ≡ none → get k (d ++ c) ≡ get k c
unfolding get
get-append_none k [] c h = refl
get-append_none k ((i, b) ∷ d) c h =
    let x = get-cons_none k i b d h in rw (x.0, get) (get-append_none k d c x.1)

get-append_ne :
    (k j : String) (b : Bucket) (d : Dict Bucket)
    → (j == k) ≡ false
    → get k (d ++ (j, b) ∷ []) ≡ get k d
unfolding get
get-append_ne k j b [] n = rw (n, get) refl
get-append_ne k j b ((i, c) ∷ d) n = ground (arith, get-append_ne k j b d n)

append_one-Unique :
    (j : String) (b : Bucket) (d : Dict Bucket)
    → get j d ≡ none
    → Unique d
    → Unique (d ++ (j, b) ∷ [])
unfolding get
append_one-Unique j b [] n h = (refl, tt)
append_one-Unique j b ((i, c) ∷ d) n h =
    let x = get-cons_none j i c d n in
    (
      get-append_ne i j b d (ground (arith, eq_iff i j, eq_iff j i, x.0)) ∙ h.0,
      append_one-Unique j b d x.1 h.1,
    )

pub put_last-Unique :
    (k : String) (b : Bucket) (d : Dict Bucket) → Unique d → Unique (put_last k b d)
put_last-Unique k b d h =
    append_one-Unique k b (remove k d) (get-remove_self k d h) (remove-Unique k d h)

pub get-put_last_self :
    (k : String) (b : Bucket) (d : Dict Bucket) → Unique d → get k (put_last k b d) ≡ some b
unfolding get
get-put_last_self k b d h =
    get-append_none k (remove k d) ((k, b) ∷ []) (get-remove_self k d h)
    ∙ rw ((eq_iff k k).1 refl, get) refl

pub get-put_last_ne :
    (k j : String) (b : Bucket) (d : Dict Bucket)
    → (j == k) ≡ false
    → get k (put_last j b d) ≡ get k d
get-put_last_ne k j b d n = get-append_ne k j b (remove j d) n ∙ get-remove_ne k j d n
