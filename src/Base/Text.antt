-- ===== src/Base/Text.antt =====
-- Python's `str` as the native text: its code points, its length, and `s[:n]`.
use Prim.Native.Nat.{ℕ, zero, suc, ◌≤◌}
use Prim.Native.Char.{code}
use Prim.Native.String.{String}
use mathlib.Core.Bool.{Bool}
use mathlib.Core.Option.{Option, none, some}
use outbound_gpu_worker_pool.Base.Tests.{nat_eq, if◌then◌else◌}
use mathlib.Core.List.{List, [], ◌∷◌}
use native.Mathlib.Omega.{arith}

abbrev pub codes : String → List ℕ
codes String.[] = []
codes (String.◌∷◌ c s) = code c ∷ codes s

-- `len(s)` counts code points.
abbrev pub len : String → ℕ
len String.[] = 0
len (String.◌∷◌ c s) = suc (len s)

-- `not s`
abbrev pub is_empty : String → Bool
is_empty s = nat_eq (len s) 0

-- `s[:n]`
unfoldable pub prefix : ℕ → String → String
prefix zero s = String.[]
prefix (suc n) String.[] = String.[]
prefix (suc n) (String.◌∷◌ c s) = String.◌∷◌ c (prefix n s)

pub len-prefix : (n : ℕ) (s : String) → len (prefix n s) ≤ n
unfolding prefix
len-prefix zero s = omega arith
len-prefix (suc n) String.[] = omega arith
len-prefix (suc n) (String.◌∷◌ c s) = omega (arith, len-prefix n s)

-- `s + t`
abbrev pub concat : String → String → String
concat String.[] t = t
concat (String.◌∷◌ c s) t = String.◌∷◌ c (concat s t)

-- `s.removeprefix(p)` where `s.startswith(p)`.
unfoldable pub strip_prefix : String → String → Option String
strip_prefix String.[] s = some s
strip_prefix (String.◌∷◌ c p) String.[] = none
strip_prefix (String.◌∷◌ c p) (String.◌∷◌ d s) =
    if nat_eq (code c) (code d) then strip_prefix p s else none

-- `s.partition(sep)` for a separator of one code point: what stands before it and, where it is met,
-- what stands after it.
unfoldable pub partition : ℕ → String → String × Option String
partition sep String.[] = (String.[], none)
partition sep (String.◌∷◌ c s) =
    let (before, after) = partition sep s in
    if nat_eq (code c) sep then (String.[], some s) else (String.◌∷◌ c before, after)

-- The text of the first line or part, and the others.
abbrev pub first_line : List String → String
first_line [] = ""
first_line (l ∷ ls) = l

abbrev pub other_lines : List String → List String
other_lines [] = []
other_lines (l ∷ ls) = ls

-- `s.split(sep)` for a separator of one code point.
unfoldable pub split : ℕ → String → List String
split sep String.[] = "" ∷ []
split sep (String.◌∷◌ c s) =
    let rest = split sep s in
    if nat_eq (code c) sep then "" ∷ rest else String.◌∷◌ c (first_line rest) ∷ other_lines rest
