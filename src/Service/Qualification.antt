-- ===== src/Service/Qualification.antt =====
-- Which profiles a job or a worker may name: `_unqualified_reason` and `_pinned_recipe` of
-- service.py.
use outbound_gpu_worker_pool.Base.{
  String, Bool, ◌&&◌, ◌||◌, Option, none, some, List, [], ◌∷◌, if◌then◌else◌, is_some, contains,
  concat, strip_prefix, partition, ℤ_eq, ◌==◌, ℕ_eq, String_eq, Option_eq, List_eq, Dict, get, keys,
}
use outbound_gpu_worker_pool.Registry.{sort_texts}
use outbound_gpu_worker_pool.Service.{Profiles}

abbrev pub refused_capability : Profiles → List String → Option String
refused_capability q [] = none
refused_capability q (c ∷ cs) =
    if contains q.refused_capability_ids c then some c else refused_capability q cs

abbrev text_or_empty : Option String → String
text_or_empty none = ""
text_or_empty (some s) = s

-- One key and value of `runtime_versions`: `key.partition("@")`.
unfoldable pub names_refused : Profiles → String → String → Bool
unfolding partition
names_refused q key value =
    let (base, profile) = partition b'@' key in
    contains q.refused_profiles (text_or_empty profile)
    || (base == "magic_profile" && contains q.refused_profiles value)
    || (base == "magic_recipe" && contains q.refused_recipe_versions value)

abbrev pub refused_version : Profiles → Dict String → Option String
refused_version q [] = none
refused_version q ((k, v) ∷ d) = if names_refused q k v then some k else refused_version q d

abbrev pub version_reason : Option String → Option String
version_reason none = none
version_reason (some k) = some (concat k " names a machine profile that is not qualified yet")

unfoldable pub unqualified_reason : Profiles → List String → Dict String → Option String
unfolding names_refused
unqualified_reason q capability_ids versions = elim (refused_capability q capability_ids) [
  | some c ↦ some (concat c " belongs to a machine profile that is not qualified yet")
  | none ↦ version_reason (refused_version q versions)
]

-- The first key in sorted order that starts with `magic_recipe@`.
unfoldable pub first_recipe : List String → Dict String → Option String
unfolding strip_prefix
first_recipe [] d = none
first_recipe (k ∷ ks) d =
    if is_some (strip_prefix "magic_recipe@" k) then get k d else first_recipe ks d

unfoldable pub pinned_recipe : Dict String → Option String
unfolding first_recipe sort_texts
pinned_recipe versions = elim (get "magic_recipe" versions) [
  | some v ↦ some v
  | none ↦ first_recipe (sort_texts (keys versions)) versions
]
