-- ===== src/Base/Dicts.antt =====
-- Python's `dict` with text keys, in insertion order: `d[k] = v` on a known key keeps its place.
use Prim.Native.String.{String}
use mathlib.Core.Path.{◌≡◌}
use mathlib.Core.Logic.{◌≢◌}
use mathlib.Core.Option.{Option, none, some}
use mathlib.Core.List.{List, [], ◌∷◌}
use native.Mathlib.Omega.{arith}
use text.Mathlib.TextEquality.{eq_iff}
use outbound_gpu_worker_pool.Base.Tests.{if◌then◌else◌}
use outbound_gpu_worker_pool.Base.Equality.{◌==◌, ℕ_eq, String_eq, Option_eq, List_eq}
use outbound_gpu_worker_pool.Base.Lists.{In}

abbrev pub Dict {ℓ} : Type ℓ → Type ℓ
Dict V = List (String × V)

module _ {ℓ} {V : Type ℓ} where
  -- `d.get(k)`
  unfoldable pub get : String → Dict V → Option V
  get k [] = none
  get k ((j, v) ∷ d) = if j == k then some v else get k d

  -- `d[k] = v`
  unfoldable pub put : String → V → Dict V → Dict V
  put k v [] = (k, v) ∷ []
  put k v ((j, w) ∷ d) = if j == k then (j, v) ∷ d else (j, w) ∷ put k v d

  -- `d.values()` and `d.keys()`
  abbrev pub values : Dict V → List V
  values [] = []
  values ((k, v) ∷ d) = v ∷ values d

  abbrev pub keys : Dict V → List String
  keys [] = []
  keys ((k, v) ∷ d) = k ∷ keys d

  -- A property of every entry, by its key.
  abbrev pub Entries {κ} : (String → V → Type κ) → Dict V → Type κ
  Entries P [] = Unit
  Entries P ((k, v) ∷ d) = P k v × Entries P d

  pub get-put :
      (k j : String) (v : V) (d : Dict V) → get j (put k v d) ≡ (if k == j then some v else get j d)
  unfolding get put
  get-put k j v [] = ground arith
  get-put k j v ((i, w) ∷ d) = ground (arith, eq_iff k j, eq_iff i k, eq_iff i j, get-put k j v d)

  pub get-put_self : (k : String) (v : V) (d : Dict V) → get k (put k v d) ≡ some v
  get-put_self k v d = ground (arith, get-put k k v d, eq_iff k k)

  pub get-put_ne : (k j : String) (v : V) (d : Dict V) → k ≢ j → get j (put k v d) ≡ get j d
  get-put_ne k j v d h = ground (arith, get-put k j v d, eq_iff k j)

module _ {V : Type 0} where
  pub get-In : (k : String) (v : V) (d : Dict V) → get k d ≡ some v → In v (values d)
  unfolding get
  get-In k v [] h = absurd (ground arith)
  get-In k v ((j, w) ∷ d) h = ground (arith, get-In k v d)

module _ {ℓ} {V : Type ℓ} where
  pub Entries-get {κ} :
      (P : String → V → Type κ) (k : String) (v : V) (d : Dict V)
      → Entries P d
      → get k d ≡ some v
      → P k v
  unfolding get
  Entries-get P k v [] h e = absurd (ground arith)
  Entries-get P k v ((j, w) ∷ d) h e = ground (arith, eq_iff j k, h.0, Entries-get P k v d h.1)

  pub Entries-put {κ} :
      (P : String → V → Type κ) (k : String) (v : V) (d : Dict V)
      → Entries P d
      → P k v
      → Entries P (put k v d)
  unfolding put
  Entries-put P k v [] h p = (p, tt)
  Entries-put P k v ((j, w) ∷ d) h p = ground (arith, eq_iff j k, Entries-put P k v d h.1 p)
