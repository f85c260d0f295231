-- ===== src/Regex/Decides.antt =====
-- `fullmatch` decides the language.
use outbound_gpu_worker_pool.Base.{
  ℕ, ◌≡◌, refl, sym, ap, ◌∙◌, subst, ◌↔◌, ◌⊎◌, inl, inr, Bool, true, false, List, [], ◌∷◌, ◌++◌,
  arith, if◌then◌else◌, Bool-cases, and-true,
}
use outbound_gpu_worker_pool.Regex.{
  in_class, nullable, derivative, fullmatch, Regex, nothing, empty, class, alt, seq, star,
}
use outbound_gpu_worker_pool.Regex.Language.{Matches, stop, piece}

append-eq-nil : (v w : List ℕ) → [] ≡ v ++ w → (v ≡ []) × (w ≡ [])
append-eq-nil [] w e = (refl, sym e)
append-eq-nil (x ∷ v) w e = cc

pub nullable→Matches : (r : Regex) → nullable r ≡ true → Matches r []
nullable→Matches nothing h = cc
nullable→Matches empty h = refl
nullable→Matches (class rs) h = cc
nullable→Matches (alt r s) h = elim (Bool-cases (nullable r)) [
  | inl e ↦ inl (nullable→Matches r e)
  | inr e ↦ inr (nullable→Matches s (ground arith))
]
nullable→Matches (seq r s) h =
    let e = and-true (nullable r) (nullable s) h in
    ([], [], refl, nullable→Matches r e.0, nullable→Matches s e.1)
nullable→Matches (star r) h = stop

pub Matches→nullable : (r : Regex) (u : List ℕ) → u ≡ [] → Matches r u → nullable r ≡ true
Matches→nullable nothing u e m = absurd m
Matches→nullable empty u e m = refl
Matches→nullable (class rs) u e (c, h, k) = cc
Matches→nullable (alt r s) u e (inl m) = ground (arith, Matches→nullable r u e m)
Matches→nullable (alt r s) u e (inr m) = ground (arith, Matches→nullable s u e m)
Matches→nullable (seq r s) u e (v, w, h, m, n) =
    let p = append-eq-nil v w (sym e ∙ h) in
    ground (arith, Matches→nullable r v p.0 m, Matches→nullable s w p.1 n)
Matches→nullable (star r) u e m = refl

-- The two tests of `derivative`, taken apart and put together.
if_class :
    (b : Bool) (u : List ℕ) → Matches (if b then empty else nothing) u → (b ≡ true) × (u ≡ [])
if_class true u m = (refl, m)
if_class false u m = absurd m

if_class_intro : (b : Bool) → b ≡ true → Matches (if b then empty else nothing) []
if_class_intro true h = refl
if_class_intro false h = cc

if_seq :
    (b : Bool) (r s : Regex) (u : List ℕ)
    → Matches (if b then alt r s else r) u
    → Matches r u ⊎ ((b ≡ true) × Matches s u)
if_seq true r s u (inl m) = inl m
if_seq true r s u (inr m) = inr (refl, m)
if_seq false r s u m = inl m

if_seq_left :
    (b : Bool) (r s : Regex) (u : List ℕ) → Matches r u → Matches (if b then alt r s else r) u
if_seq_left true r s u m = inl m
if_seq_left false r s u m = m

if_seq_right :
    (b : Bool) (r s : Regex) (u : List ℕ)
    → b ≡ true
    → Matches s u
    → Matches (if b then alt r s else r) u
if_seq_right true r s u h m = inr m
if_seq_right false r s u h m = cc

cons-cons : (c x : ℕ) (u v : List ℕ) → c ∷ u ≡ x ∷ v → (c ≡ x) × (u ≡ v)
cons-cons c x u v e = ground arith

-- One character read: the derivative describes what is left.
pub derivative→Matches :
    (c : ℕ) (r : Regex) (u : List ℕ) → Matches (derivative c r) u → Matches r (c ∷ u)
unfolding derivative
derivative→Matches c nothing u m = absurd m
derivative→Matches c empty u m = absurd m
derivative→Matches c (class rs) u m =
    let p = if_class (in_class rs c) u m in (c, ap (λ (t : List ℕ). c ∷ t) p.1, p.0)
derivative→Matches c (alt r s) u (inl m) = inl (derivative→Matches c r u m)
derivative→Matches c (alt r s) u (inr m) = inr (derivative→Matches c s u m)
derivative→Matches c (seq r s) u m =
    elim (if_seq (nullable r) (seq (derivative c r) s) (derivative c s) u m) [
      | inl (v, w, e, m', n) ↦
          (c ∷ v, w, ap (λ (t : List ℕ). c ∷ t) e, derivative→Matches c r v m', n)
      | inr (h, n) ↦ ([], c ∷ u, refl, nullable→Matches r h, derivative→Matches c s u n)
    ]
derivative→Matches c (star r) u (v, w, e, m, n) =
    piece c v w (ap (λ (t : List ℕ). c ∷ t) e) (derivative→Matches c r v m) n

pub Matches→derivative :
    (c : ℕ) (r : Regex) (t u : List ℕ) → t ≡ c ∷ u → Matches r t → Matches (derivative c r) u
unfolding derivative
Matches→derivative c nothing t u q m = absurd m
Matches→derivative c empty t u q m = cc
Matches→derivative c (class rs) t u q (x, e, h) =
    let p = cons-cons c x u [] (sym q ∙ e) in
    subst (Matches (if in_class rs c then empty else nothing)) (sym p.1)
      (if_class_intro (in_class rs c) (rw p.0 h))
Matches→derivative c (alt r s) t u q (inl m) = inl (Matches→derivative c r t u q m)
Matches→derivative c (alt r s) t u q (inr m) = inr (Matches→derivative c s t u q m)
Matches→derivative c (seq r s) t u q ([], w, e, m, n) =
    if_seq_right (nullable r) (seq (derivative c r) s) (derivative c s) u
      (Matches→nullable r [] refl m) (Matches→derivative c s w u (sym e ∙ q) n)
Matches→derivative c (seq r s) t u q (x ∷ v, w, e, m, n) =
    let p = cons-cons c x u (v ++ w) (sym q ∙ e) in
    if_seq_left (nullable r) (seq (derivative c r) s) (derivative c s) u
      (v, w, p.1, Matches→derivative c r (x ∷ v) v (ap (λ (y : ℕ). y ∷ v) (sym p.0)) m, n)
Matches→derivative c (star r) t u q stop = cc
Matches→derivative c (star r) t u q (piece x v w e m n) =
    let p = cons-cons c x u (v ++ w) (sym q ∙ e) in
    (v, w, p.1, Matches→derivative c r (x ∷ v) v (ap (λ (y : ℕ). y ∷ v) (sym p.0)) m, n)

fullmatch→Matches : (r : Regex) (u : List ℕ) → fullmatch r u ≡ true → Matches r u
unfolding fullmatch
fullmatch→Matches r [] h = nullable→Matches r h
fullmatch→Matches r (c ∷ u) h = derivative→Matches c r u (fullmatch→Matches (derivative c r) u h)

Matches→fullmatch : (r : Regex) (u : List ℕ) → Matches r u → fullmatch r u ≡ true
unfolding fullmatch
Matches→fullmatch r [] m = Matches→nullable r [] refl m
Matches→fullmatch r (c ∷ u) m =
    Matches→fullmatch (derivative c r) u (Matches→derivative c r (c ∷ u) u refl m)

-- The matcher accepts exactly the texts of the pattern's language.
pub fullmatch-iff-Matches : (r : Regex) (u : List ℕ) → (fullmatch r u ≡ true) ↔ Matches r u
fullmatch-iff-Matches r u = (fullmatch→Matches r u, Matches→fullmatch r u)
