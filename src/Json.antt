-- ===== src/Json.antt =====
-- `json.dumps(v, allow_nan=False, separators=(",", ":"), sort_keys=True)`, as the canonical form of
-- validation.py uses it: ASCII code points, with everything outside of ' ' to '~' escaped.
use outbound_gpu_worker_pool.Base.{
  ℕ, zero, suc, ◌+◌, ◌-◌, ◌/◌, ◌%◌, String, Bool, true, false, ◌&&◌, ◌||◌, List, [], ◌∷◌, ◌++◌, map,
  ltb, leb, nat_eq, if◌then◌else◌, codes, ℤ, pos, negsuc,
}
use outbound_gpu_worker_pool.Contracts.{
  ◌>>=◌, Error, value_error, Result, ok, err, finite, Value, null, bool, int, float, str, list,
  dict, Items, nil, cons, Fields, end, field,
}
use outbound_gpu_worker_pool.Stdlib.{Stdlib}

abbrev hex_digit : ℕ → ℕ
hex_digit d = if ltb d 10 then 48 + d else 87 + d

-- `\uXXXX`
abbrev unicode_escape : ℕ → List ℕ
unicode_escape c =
    92
    ∷ 117
    ∷ hex_digit (c / 4096 % 16)
    ∷ hex_digit (c / 256 % 16)
    ∷ hex_digit (c / 16 % 16)
    ∷ hex_digit (c % 16)
    ∷ []

abbrev escape : ℕ → List ℕ
escape c =
    if nat_eq c 34
    then 92 ∷ 34 ∷ []
    else if nat_eq c 92
    then 92 ∷ 92 ∷ []
    else if nat_eq c 10
    then 92 ∷ 110 ∷ []
    else if nat_eq c 13
    then 92 ∷ 114 ∷ []
    else if nat_eq c 9
    then 92 ∷ 116 ∷ []
    else if nat_eq c 12
    then 92 ∷ 102 ∷ []
    else if nat_eq c 8
    then 92 ∷ 98 ∷ []
    else if leb 32 c && leb c 126
    then c ∷ []
    else if ltb c 65536
    then unicode_escape c
    else unicode_escape (55296 + (c - 65536) / 1024) ++ unicode_escape (56320 + (c - 65536) % 1024)

escapes : List ℕ → List ℕ
escapes [] = []
escapes (c ∷ cs) = escape c ++ escapes cs

pub quoted : String → List ℕ
unfolding escapes
quoted s = 34 ∷ (escapes (codes s) ++ 34 ∷ [])

-- The decimal digits of `n`, in front of `rest`; `n + 1` rounds are enough.
decimal : ℕ → ℕ → List ℕ → List ℕ
decimal zero n rest = rest
decimal (suc f) n rest =
    let more = decimal f (n / 10) ((48 + n % 10) ∷ rest) in
    if ltb n 10 then (48 + n) ∷ rest else more

pub int_text : ℤ → List ℕ
unfolding decimal
int_text (pos n) = decimal (suc n) n []
int_text (negsuc n) = 45 ∷ decimal (suc (suc n)) (suc n) []

-- Code point order, which sorts the keys.
abbrev pub codes_lt : List ℕ → List ℕ → Bool
codes_lt xs [] = false
codes_lt [] (y ∷ ys) = true
codes_lt (x ∷ xs) (y ∷ ys) = ltb x y || (nat_eq x y && codes_lt xs ys)

abbrev pub Member : Type 0
Member = String × List ℕ

unfoldable pub insert_member : Member → List Member → List Member
insert_member (k, v) [] = (k, v) ∷ []
insert_member (k, v) ((j, w) ∷ ms) =
    if codes_lt (codes j) (codes k) then (j, w) ∷ insert_member (k, v) ms else (k, v) ∷ (j, w) ∷ ms

unfoldable pub sort_members : List Member → List Member
unfolding insert_member
sort_members [] = []
sort_members (m ∷ ms) = insert_member m (sort_members ms)

abbrev member_text : Member → List ℕ
member_text (k, v) = quoted k ++ 58 ∷ v

abbrev joined : List (List ℕ) → List ℕ
joined [] = []
joined (t ∷ []) = t
joined (t ∷ u ∷ ts) = t ++ 44 ∷ joined (u ∷ ts)

not_compliant : Error
not_compliant = value_error "Out of range float values are not JSON compliant"

module _ (lib : Stdlib) where
  unfoldable mutual
    unfolding quoted int_text sort_members not_compliant

    pub dumps : Value → Result (List ℕ)
    dumps null = ok (codes "null")
    dumps (bool true) = ok (codes "true")
    dumps (bool false) = ok (codes "false")
    dumps (int n) = ok (int_text n)
    dumps (float (finite n)) = ok (lib.float_repr n)
    dumps (float _) = err not_compliant
    dumps (str s) = ok (quoted s)
    dumps (list xs) = do texts ← dump_items xs; ok (91 ∷ (joined texts ++ 93 ∷ []))
    dumps (dict fs) = do
      members ← dump_fields fs
      ok (123 ∷ (joined (map member_text (sort_members members)) ++ 125 ∷ []))

    pub dump_items : Items → Result (List (List ℕ))
    dump_items nil = ok []
    dump_items (cons x xs) = do t ← dumps x; ts ← dump_items xs; ok (t ∷ ts)

    pub dump_fields : Fields → Result (List Member)
    dump_fields end = ok []
    dump_fields (field k v fs) = do t ← dumps v; ms ← dump_fields fs; ok ((k, t) ∷ ms)
