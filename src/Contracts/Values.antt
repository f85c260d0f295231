-- ===== src/Contracts/Values.antt =====
-- `JobPayloadValue`: the values of a JSON payload, with Python's `==` on them. Keys of a dict are
-- texts, so a key of another type does not arise. A finite float is an integer multiple of
-- 2^-1074, which is how every double can be written.
pub mod Same
use outbound_gpu_worker_pool.Base.{
  ℕ, suc, ◌+◌, ◌-◌, ◌*◌, ◌^◌, String, Bool, true, false, not, ◌&&◌, Option, none, some, nat_eq,
  if◌then◌else◌, int_eq, ℤ_eq, ℤ, pos, negsuc, ◌==◌, ℕ_eq, String_eq, Option_eq, List_eq,
}

pub data Float : Type 0 where
  finite : ℤ → Float
  infinity : Bool → Float
  nan : Float

mutual
  pub data Value : Type 0 where
    null : Value
    bool : Bool → Value
    int : ℤ → Value
    float : Float → Value
    str : String → Value
    list : Items → Value
    dict : Fields → Value

  pub data Items : Type 0 where
    nil : Items
    cons : Value → Items → Items

  pub data Fields : Type 0 where
    end : Fields
    field : String → Value → Fields → Fields

-- Python compares the numbers 1, 1.0 and True as equal, so each has one value here.
pub data Number : Type 0 where
  rational : ℤ → Number
  infinite : Bool → Number
  not_a_number : Number

abbrev pub float_unit : ℕ
float_unit = 2 ^ 1074

abbrev pub scale : ℤ → ℤ
scale (pos n) = pos (n * float_unit)
scale (negsuc n) = negsuc ((n + 1) * float_unit - 1)

abbrev pub bool_eq : Bool → Bool → Bool
bool_eq true b = b
bool_eq false b = not b

unfoldable pub number? : Value → Option Number
number? (bool true) = some (rational (scale (pos 1)))
number? (bool false) = some (rational (scale (pos 0)))
number? (int n) = some (rational (scale n))
number? (float (finite n)) = some (rational n)
number? (float (infinity s)) = some (infinite s)
number? (float nan) = some not_a_number
number? _ = none

unfoldable pub number_eq : Number → Number → Bool
number_eq (rational a) (rational b) = int_eq a b
number_eq (infinite s) (infinite t) = bool_eq s t
number_eq _ _ = false

unfoldable pub numbers_eq : Option Number → Option Number → Bool
unfolding number_eq
numbers_eq (some a) (some b) = number_eq a b
numbers_eq _ _ = false

unfoldable pub field_get : String → Fields → Option Value
field_get k end = none
field_get k (field j v fs) = if j == k then some v else field_get k fs

abbrev pub fields_len : Fields → ℕ
fields_len end = 0
fields_len (field k v fs) = suc (fields_len fs)

-- A dict's `==` ignores the order of its keys.
unfoldable mutual
  pub value_eq : Value → Value → Bool
  value_eq null null = true
  value_eq (str s) (str t) = s == t
  value_eq (list xs) (list ys) = items_eq xs ys
  value_eq (dict fs) (dict gs) = nat_eq (fields_len fs) (fields_len gs) && fields_sub fs gs
  value_eq v w = numbers_eq (number? v) (number? w)

  pub items_eq : Items → Items → Bool
  items_eq nil nil = true
  items_eq (cons x xs) (cons y ys) = value_eq x y && items_eq xs ys
  items_eq _ _ = false

  pub fields_sub : Fields → Fields → Bool
  fields_sub end gs = true
  fields_sub (field k v fs) gs =
      let rest = fields_sub fs gs in
      elim (field_get k gs) [ none ↦ false | some w ↦ value_eq v w ] && rest
