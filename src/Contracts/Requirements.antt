-- ===== src/Contracts/Requirements.antt =====
-- `JobRequirements` of contracts.py, and its jsonb form.
pub mod RoundTrip
use outbound_gpu_worker_pool.Base.{
  String, Bool, true, false, not, Option, none, some, List, [], ◌∷◌, if◌then◌else◌, is_empty, ℤ_eq,
  ℤ, pos, ◌==◌, ℕ_eq, String_eq, Option_eq, List_eq, Dict,
}
use outbound_gpu_worker_pool.Contracts.Errors.{◌>>=◌, ◌>>◌, Error, type_error, Result, ok, err}
use outbound_gpu_worker_pool.Contracts.Values.{
  field_get, finite, Value, null, bool, int, float, str, list, dict, Items, nil, cons, Fields, end,
  field,
}

pub record JobRequirements : Type 0 where
  pub min_vram_mb : Option ℤ
  pub gpu_models : List String
  pub labels : List String
  pub worker_ids : List String
  pub runtime_versions : Dict String

-- `list(strings)` and `dict(versions)` as JSON.
abbrev pub text_items : List String → Items
text_items [] = nil
text_items (s ∷ ss) = cons (str s) (text_items ss)

abbrev pub text_fields : Dict String → Fields
text_fields [] = end
text_fields ((k, v) ∷ d) = field k (str v) (text_fields d)

-- One `if` of `as_payload`: the key is set only where the constraint is.
abbrev pub set_vram : Option ℤ → Fields → Fields
set_vram none fs = fs
set_vram (some n) fs = field "min_vram_mb" (int n) fs

abbrev pub set_texts : String → List String → Fields → Fields
set_texts k [] fs = fs
set_texts k (s ∷ ss) fs = field k (list (text_items (s ∷ ss))) fs

abbrev pub set_versions : Dict String → Fields → Fields
set_versions [] fs = fs
set_versions (e ∷ d) fs = field "runtime_versions" (dict (text_fields (e ∷ d))) fs

unfoldable pub as_payload : JobRequirements → Fields
as_payload r = set_vram r.min_vram_mb (
    set_texts "gpu_models" r.gpu_models (
      set_texts "labels" r.labels
        (set_texts "worker_ids" r.worker_ids (set_versions r.runtime_versions end))))

-- `bool(v)`
abbrev truthy : Value → Bool
truthy null = false
truthy (bool b) = b
truthy (int n) = not (n == pos 0)
truthy (float (finite n)) = not (n == pos 0)
truthy (float _) = true
truthy (str s) = not (is_empty s)
truthy (list nil) = false
truthy (list (cons x xs)) = true
truthy (dict end) = false
truthy (dict (field k v fs)) = true

-- `payload.get(key) or default`
abbrev pub or_default : Option Value → Value → Value
or_default none d = d
or_default (some v) d = if truthy v then v else d

abbrev pub items? : Value → Option Items
items? (list xs) = some xs
items? _ = none

abbrev pub fields? : Value → Option Fields
fields? (dict fs) = some fs
fields? _ = none

-- `isinstance(v, int)`, which a bool passes.
abbrev int? : Value → Option ℤ
int? (int n) = some n
int? (bool true) = some (pos 1)
int? (bool false) = some (pos 0)
int? _ = none

abbrev pub texts? : Items → Option (List String)
texts? nil = some []
texts? (cons (str s) xs) = elim (texts? xs) [ none ↦ none | some ss ↦ some (s ∷ ss) ]
texts? (cons _ xs) = none

abbrev pub versions? : Fields → Option (Dict String)
versions? end = some []
versions? (field k (str s) fs) = elim (versions? fs) [ none ↦ none | some d ↦ some ((k, s) ∷ d) ]
versions? (field k _ fs) = none

abbrev pub or_raise {ℓ} : {A : Type ℓ} → Option A → Error → Result A
or_raise none e = err e
or_raise (some a) e = ok a

abbrev pub vram_of : Option Value → Result (Option ℤ)
vram_of none = ok none
vram_of (some null) = ok none
vram_of (some v) = elim (int? v) [
  | none ↦ err (type_error "requirements min_vram_mb must be an integer")
  | some n ↦ ok (some n)
]

-- `str(v)` is `v` on a text; on anything else it is `render`, Python's own rendering.
module _ (render : Value → String) where
  abbrev pub to_str : Value → String
  to_str (str s) = s
  to_str v = render v

  abbrev pub to_strs : Items → List String
  to_strs nil = []
  to_strs (cons v xs) = to_str v ∷ to_strs xs

  unfoldable pub from_payload : Fields → Result JobRequirements
  from_payload payload = do
    gpu_models ←
        or_raise (items? (or_default (field_get "gpu_models" payload) (list nil))) not_arrays
    labels ← or_raise (items? (or_default (field_get "labels" payload) (list nil))) not_arrays
    min_vram_mb ← vram_of (field_get "min_vram_mb" payload)
    worker_items ←
        or_raise (items? (or_default (field_get "worker_ids" payload) (list nil))) not_texts
    worker_ids ← or_raise (texts? worker_items) not_texts
    versions ←
        or_raise (fields? (or_default (field_get "runtime_versions" payload) (dict end)))
          not_versions
    runtime_versions ← or_raise (versions? versions) not_versions
    ok (record {
      min_vram_mb = min_vram_mb;
      gpu_models = to_strs gpu_models;
      labels = to_strs labels;
      worker_ids = worker_ids;
      runtime_versions = runtime_versions;
    })
    where
      not_arrays : Error
      not_arrays = type_error "requirements gpu_models and labels must be arrays"

      not_texts : Error
      not_texts = type_error "requirements worker_ids must be an array of strings"

      not_versions : Error
      not_versions = type_error "requirements runtime_versions must map strings to strings"
