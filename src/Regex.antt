-- ===== src/Regex.antt =====
-- Regular expressions, as the source uses Python's `re`: a pattern decides whether a text matches,
-- and no group is read. A class is a list of ranges of code points.
pub mod Language
pub mod Decides
use outbound_gpu_worker_pool.Base.{
  ℕ, zero, suc, Bool, true, false, ◌&&◌, ◌||◌, List, [], ◌∷◌, leb, if◌then◌else◌,
}

pub data Regex : Type 0 where
  nothing empty : Regex
  class : List (ℕ × ℕ) → Regex
  alt seq : Regex → Regex → Regex
  star : Regex → Regex

abbrev pub in_class : List (ℕ × ℕ) → ℕ → Bool
in_class [] c = false
in_class ((lo, hi) ∷ rs) c = (leb lo c && leb c hi) || in_class rs c

abbrev pub nullable : Regex → Bool
nullable nothing = false
nullable empty = true
nullable (class rs) = false
nullable (alt r s) = nullable r || nullable s
nullable (seq r s) = nullable r && nullable s
nullable (star r) = true

-- What may follow once `c` is read.
unfoldable pub derivative : ℕ → Regex → Regex
derivative c nothing = nothing
derivative c empty = nothing
derivative c (class rs) = if in_class rs c then empty else nothing
derivative c (alt r s) = alt (derivative c r) (derivative c s)
derivative c (seq r s) =
    let left = seq (derivative c r) s in
    let right = derivative c s in if nullable r then alt left right else left
derivative c (star r) = seq (derivative c r) (star r)

-- `re.fullmatch`
unfoldable pub fullmatch : Regex → List ℕ → Bool
unfolding derivative
fullmatch r [] = nullable r
fullmatch r (c ∷ s) = fullmatch (derivative c r) s

-- `r+` and `r{0,n}`
abbrev pub plus : Regex → Regex
plus r = seq r (star r)

abbrev pub upto : ℕ → Regex → Regex
upto zero r = empty
upto (suc n) r = alt empty (seq r (upto n r))

abbrev pub times : ℕ → Regex → Regex
times zero r = empty
times (suc n) r = seq r (times n r)

abbrev pub char : ℕ → Regex
char c = class ((c, c) ∷ [])

-- `re.match` of a pattern that ends in `$`, which also holds before a final newline.
abbrev pub line_end : Regex
line_end = alt empty (char 10)
