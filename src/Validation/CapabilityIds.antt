-- ===== src/Validation/CapabilityIds.antt =====
-- `validate_capability_id` of validation.py, and the form of the ids that it accepts.
use outbound_gpu_worker_pool.Base.{
  ℕ, ◌≤◌, String, ◌≡◌, refl, sym, ap, ◌∙◌, subst, ◌↔◌, ◌⊎◌, inl, inr, true, false, List, [], ◌∷◌,
  ◌++◌, append_assoc, arith, All, codes, len, is_empty,
}
use outbound_gpu_worker_pool.Regex.{in_class, plus, char, line_end, class, seq}
use outbound_gpu_worker_pool.Regex.Language.{Matches, Pieces, stop, piece}
use outbound_gpu_worker_pool.Validation.{
  lower_digit_, capability_id_pattern, capability_id_matches, validate_capability_id,
}
use outbound_gpu_worker_pool.Contracts.{ok}
use outbound_gpu_worker_pool.Regex.Decides.{fullmatch-iff-Matches}

abbrev IsLetter : ℕ → Type 0
IsLetter c = (b'a' ≤ c) × (c ≤ b'z')

abbrev IsDigit : ℕ → Type 0
IsDigit c = (b'0' ≤ c) × (c ≤ b'9')

abbrev IsWord : ℕ → Type 0
IsWord c = IsLetter c ⊎ (IsDigit c ⊎ (c ≡ b'_'))

abbrev IsPart : ℕ → Type 0
IsPart c = (c ≡ b'-') ⊎ IsWord c

-- A row of dots, each with a nonempty part behind it.
pub data Dotted : List ℕ → Type 0 where
  bare : Dotted []
  dotted :
      (c : ℕ) (s t : List ℕ) {u : List ℕ}
      → u ≡ b'.' ∷ ((c ∷ s) ++ t)
      → All IsPart (c ∷ s)
      → Dotted t
      → Dotted u

-- A letter, word characters, dotted parts, and `.v` with a number; a line feed may end the text,
-- since the `$` of a pattern stands before one too.
pub record IsCapabilityId (u : List ℕ) : Type 0 where
  pub first : ℕ
  pub name : List ℕ
  pub parts : List ℕ
  pub digit : ℕ
  pub digits : List ℕ
  pub feed : List ℕ
  pub spells : u ≡ first ∷ (name ++ (parts ++ (b'.' ∷ b'v' ∷ ((digit ∷ digits) ++ feed))))
  pub starts : IsLetter first
  pub named : All IsWord name
  pub divided : Dotted parts
  pub numbered : All IsDigit (digit ∷ digits)
  pub ends : (feed ≡ []) ⊎ (feed ≡ 10 ∷ [])

cons-single : (c d : ℕ) (s : List ℕ) → c ∷ s ≡ d ∷ [] → (c ≡ d) × (s ≡ [])
cons-single c d s e = (ap head e, ap tail e)
  where
    head : List ℕ → ℕ
    head [] = c
    head (x ∷ xs) = x

    tail : List ℕ → List ℕ
    tail [] = s
    tail (x ∷ xs) = xs

-- A row of characters of a class.
Pieces-All :
    (rs : List (ℕ × ℕ)) (P : ℕ → Type 0)
    → ((c : ℕ) → in_class rs c ≡ true → P c)
    → (u : List ℕ) → Pieces (Matches (class rs)) u
    → All P u
Pieces-All rs P holds u stop = tt
Pieces-All rs P holds u (piece c s t e (d, f, g) rest) =
    let one = cons-single c d s f in
    subst (All P) (sym (e ∙ ap (λ x. c ∷ (x ++ t)) one.1))
      (holds c (subst (λ x. in_class rs x ≡ true) (sym one.0) g), Pieces-All rs P holds t rest)

All-Pieces :
    (rs : List (ℕ × ℕ)) (P : ℕ → Type 0)
    → ((c : ℕ) → P c → in_class rs c ≡ true)
    → (u : List ℕ) → All P u
    → Pieces (Matches (class rs)) u
All-Pieces rs P holds [] p = stop
All-Pieces rs P holds (c ∷ u) p =
    piece c [] u refl (c, refl, holds c p.0) (All-Pieces rs P holds u p.1)

abbrev part_class : List (ℕ × ℕ)
part_class = (b'-', b'-') ∷ lower_digit_

abbrev digit_class : List (ℕ × ℕ)
digit_class = (b'0', b'9') ∷ []

char-eq : (c d : ℕ) → in_class ((c, c) ∷ []) d ≡ true → d ≡ c
char-eq c d h = ground (arith, h)

IsLetter-iff : (c : ℕ) → (in_class ((b'a', b'z') ∷ []) c ≡ true) ↔ IsLetter c
IsLetter-iff c = ground arith

IsDigit-iff : (c : ℕ) → (in_class ((b'0', b'9') ∷ []) c ≡ true) ↔ IsDigit c
IsDigit-iff c = ground arith

IsWord-iff : (c : ℕ) → (in_class lower_digit_ c ≡ true) ↔ IsWord c
IsWord-iff c = ground arith

IsPart-iff : (c : ℕ) → (in_class part_class c ≡ true) ↔ IsPart c
IsPart-iff c = ground arith

-- `(?:\.[a-z0-9_-]+)*`
Pieces-Dotted :
    (u : List ℕ) → Pieces (Matches (seq (char b'.') (plus (class part_class)))) u → Dotted u
Pieces-Dotted u stop = bare
Pieces-Dotted u (piece c s t e (v, w, f, (d, fv, gd), (x, y, g, (c1, gx, gc), row)) rest) =
    let dot = char-eq b'.' d gd in
    let spelt =
      f
      ∙ ap (λ l. l ++ w) (fv ∙ ap (λ n. n ∷ []) dot)
      ∙ ap (λ l. b'.' ∷ l) (g ∙ ap (λ l. l ++ y) gx) in
    dotted c1 y t (e ∙ ap (λ l. l ++ t) spelt)
      ((IsPart-iff c1).0 gc, Pieces-All part_class IsPart (λ k. (IsPart-iff k).0) y row)
      (Pieces-Dotted t rest)

Dotted-Pieces :
    (u : List ℕ) → Dotted u → Pieces (Matches (seq (char b'.') (plus (class part_class)))) u
Dotted-Pieces u bare = stop
Dotted-Pieces u (dotted c s t e parts rest) =
    piece b'.' (c ∷ s) t e
      (
        b'.' ∷ [],
        c ∷ s,
        refl,
        (b'.', refl, refl),
        (
          c ∷ [],
          s,
          refl,
          (c, refl, (IsPart-iff c).1 parts.0),
          All-Pieces part_class IsPart (λ k. (IsPart-iff k).1) s parts.1,
        ),
      )
      (Dotted-Pieces t rest)

abbrev IsFeed : List ℕ → Type 0
IsFeed u = (u ≡ []) ⊎ (u ≡ 10 ∷ [])

Matches-IsFeed : (u : List ℕ) → Matches line_end u → IsFeed u
Matches-IsFeed u (inl e) = inl e
Matches-IsFeed u (inr (c, e, h)) = inr (e ∙ ap (λ x. x ∷ []) (char-eq 10 c h))

IsFeed-Matches : (u : List ℕ) → IsFeed u → Matches line_end u
IsFeed-Matches u (inl e) = inl e
IsFeed-Matches u (inr e) = inr (10, e, refl)

-- A text without its end: what stands before a row of pieces that are put together.
assoc_twice : (xs ys zs ws : List ℕ) → (xs ++ (ys ++ zs)) ++ ws ≡ xs ++ (ys ++ (zs ++ ws))
assoc_twice xs ys zs ws = append_assoc xs (ys ++ zs) ws ∙ ap (λ l. xs ++ l) (append_assoc ys zs ws)

Matches-IsCapabilityId :
    (u : List ℕ) → Matches (seq capability_id_pattern line_end) u → IsCapabilityId u
Matches-IsCapabilityId u
      (
        v,
        w,
        e,
        (
          v1,
          w1,
          e1,
          (c, ec, gc),
          (
            v2,
            w2,
            e2,
            row,
            (
              v3,
              w3,
              e3,
              groups,
              (
                v4,
                w4,
                e4,
                (c4, ec4, gc4),
                (v5, w5, e5, (c5, ec5, gc5), (v6, w6, e6, (c6, ec6, gc6), numbers)),
              ),
            ),
          ),
        ),
        last,
      ) =
    let number =
      e4
      ∙ ap (λ l. l ++ w4) (ec4 ∙ ap (λ x. x ∷ []) (char-eq b'.' c4 gc4))
      ∙ ap (λ l. b'.' ∷ l)
          (e5
            ∙ ap (λ l. l ++ w5) (ec5 ∙ ap (λ x. x ∷ []) (char-eq b'v' c5 gc5))
            ∙ ap (λ l. b'v' ∷ l) (e6 ∙ ap (λ l. l ++ w6) ec6)) in
    let body =
      e1
      ∙ ap (λ l. l ++ w1) ec
      ∙ ap (λ l. c ∷ l) (e2 ∙ ap (λ l. v2 ++ l) (e3 ∙ ap (λ l. v3 ++ l) number)) in
    record {
      first = c;
      name = v2;
      parts = v3;
      digit = c6;
      digits = w6;
      feed = w;
      spells = e ∙ ap (λ l. l ++ w) body ∙ ap (λ l. c ∷ l) (assoc_twice v2 v3 _ w);
      starts = (IsLetter-iff c).0 gc;
      named = Pieces-All lower_digit_ IsWord (λ k. (IsWord-iff k).0) v2 row;
      divided = Pieces-Dotted v3 groups;
      numbered = (
        (IsDigit-iff c6).0 gc6,
        Pieces-All digit_class IsDigit (λ k. (IsDigit-iff k).0) w6 numbers,
      );
      ends = Matches-IsFeed w last;
    }

IsCapabilityId-Matches :
    (u : List ℕ) → IsCapabilityId u → Matches (seq capability_id_pattern line_end) u
IsCapabilityId-Matches u i =
    let tail = b'.' ∷ b'v' ∷ i.digit ∷ i.digits in
    (
      i.first ∷ (i.name ++ (i.parts ++ tail)),
      i.feed,
      i.spells ∙ ap (λ l. i.first ∷ l) (sym (assoc_twice i.name i.parts tail i.feed)),
      (
        i.first ∷ [],
        i.name ++ (i.parts ++ tail),
        refl,
        (i.first, refl, (IsLetter-iff i.first).1 i.starts),
        (
          i.name,
          i.parts ++ tail,
          refl,
          All-Pieces lower_digit_ IsWord (λ k. (IsWord-iff k).1) i.name i.named,
          (
            i.parts,
            tail,
            refl,
            Dotted-Pieces i.parts i.divided,
            (
              b'.' ∷ [],
              b'v' ∷ i.digit ∷ i.digits,
              refl,
              (b'.', refl, refl),
              (
                b'v' ∷ [],
                i.digit ∷ i.digits,
                refl,
                (b'v', refl, refl),
                (
                  i.digit ∷ [],
                  i.digits,
                  refl,
                  (i.digit, refl, (IsDigit-iff i.digit).1 i.numbered.0),
                  All-Pieces digit_class IsDigit (λ k. (IsDigit-iff k).1) i.digits i.numbered.1,
                ),
              ),
            ),
          ),
        ),
      ),
      IsFeed-Matches i.feed i.ends,
    )

capability_id_matches_iff :
    (s : String) → (capability_id_matches s ≡ true) ↔ IsCapabilityId (codes s)
unfolding capability_id_matches
capability_id_matches_iff s =
    let decides = fullmatch-iff-Matches (seq capability_id_pattern line_end) (codes s) in
    (
      λ h. Matches-IsCapabilityId (codes s) (decides.0 h),
      λ i. decides.1 (IsCapabilityId-Matches (codes s) i),
    )

nonempty : (s : String) (c : ℕ) (xs : List ℕ) → codes s ≡ c ∷ xs → is_empty s ≡ false
nonempty String.[] c xs e = cc
nonempty (String.◌∷◌ d s) c xs e = ground arith

-- The guard of `validate_capability_id`.
guard :
    (s : String)
    → (validate_capability_id s ≡ ok s)
      ↔ ((is_empty s ≡ false) × (len s ≤ 128) × (capability_id_matches s ≡ true))
unfolding validate_capability_id
guard s = ground arith

-- A capability id is accepted exactly when it has at most 128 characters and the form of one: a
-- letter and word characters, dotted parts, and `.v` with a number; a line feed may end it.
pub validate_capability_id_iff :
    (s : String) → (validate_capability_id s ≡ ok s) ↔ ((len s ≤ 128) × IsCapabilityId (codes s))
validate_capability_id_iff s = (
  λ h. let passed = (guard s).0 h in (passed.1, (capability_id_matches_iff s).0 passed.2),
  λ i. (guard s).1 (nonempty s i.1.first _ i.1.spells, i.0, (capability_id_matches_iff s).1 i.1),
)
