-- ===== src/MachineProfiles/Versions.antt =====
-- The recipe in a worker's runtime versions, and what the coordinator takes from a pinned recipe:
-- the functions of machine_profiles.py from `unqualified` to `attested_versions`.
use outbound_gpu_worker_pool.Base.{
  String, Bool, true, false, not, ◌&&◌, Option, none, some, List, [], ◌∷◌, ◌++◌, if◌then◌else◌,
  is_some, filter, contains, is_empty, concat, strip_prefix, ℤ_eq, ◌==◌, ℕ_eq, String_eq, Option_eq,
  List_eq, Dict, get, put,
}
use outbound_gpu_worker_pool.MachineProfiles.{
  profile_capability_ids, is_usable, template_for, profile_version, MachineProfile, Package,
}
use outbound_gpu_worker_pool.Contracts.{
  ◌>>=◌, foreign_error, Result, ok, err, Value, Fields, end, field,
}
use outbound_gpu_worker_pool.EngineRecipes.{stage_for, EngineStage}

abbrev pub recipe_name : String
recipe_name = "magic_recipe"

abbrev pub config_name : String
config_name = "magic_config"

-- The key of a profile's recipe or configuration: None is the runtime's first profile.
unfoldable pub recipe_key : Option String → String → String
recipe_key none key = key
recipe_key (some profile) key = concat key (concat "@" profile)

-- `versions[key]`
abbrev pub version_at : String → Dict String → Result String
version_at key versions = elim (get key versions) [
  | some v ↦ ok v
  | none ↦ err (foreign_error "KeyError")
]

-- `k.startswith('magic_feature_')`
abbrev pub is_feature : String × String → Bool
is_feature (key, v) = is_some (strip_prefix "magic_feature_" key)

abbrev pub under_profile : String → Dict String → Dict String
under_profile profile [] = []
under_profile profile ((key, v) ∷ d) = (recipe_key (some profile) key, v) ∷ under_profile profile d

-- A feature's key starts with `magic_feature_`, so it is none of the three before it.
unfoldable pub namespaced_versions : String → Dict String → Result (Dict String)
unfolding recipe_key strip_prefix
namespaced_versions profile versions = do
  recipe ← version_at recipe_name versions
  config ← version_at config_name versions
  name ← version_at "magic_profile" versions
  ok (
      under_profile profile (
        (recipe_name, recipe)
        ∷ (config_name, config)
        ∷ ("magic_profile", name)
        ∷ filter is_feature versions))

abbrev own_names : List String
own_names = recipe_name ∷ config_name ∷ "magic_profile" ∷ []

-- `{**shared, **own}`
abbrev updated : Dict String → Dict String → Dict String
updated d [] = d
updated d ((key, v) ∷ own) = updated (put key v d) own

abbrev is_shared : String × String → Bool
is_shared (key, v) =
    not (contains own_names key) && not (is_some (strip_prefix "magic_feature_" key))

unfoldable pub attested_versions : String → Dict String → Result (Dict String)
unfolding namespaced_versions
attested_versions profile versions = do
  own ← namespaced_versions profile versions
  ok (updated (filter is_shared versions) own)

-- The six inputs of the recipes that attest no others.
abbrev pub h3_attested_inputs : List String
h3_attested_inputs = "steps" ∷ "width" ∷ "height" ∷ "length" ∷ "fps" ∷ "seed" ∷ []

module _ (k : Package) where
  -- The search of `_profile_for_recipe`; describing a profile may raise.
  unfoldable pub profile_for_recipe :
      Dict MachineProfile → String → Result (Option (String × MachineProfile))
  profile_for_recipe [] version = ok none
  profile_for_recipe ((name, m) ∷ table) version = do
    v ← profile_version k name m
    let found = profile_for_recipe table version
    if v == version then ok (some (name, m)) else found

  abbrev stage_inputs : MachineProfile → Option EngineStage → List String
  stage_inputs m none = m.attested_inputs
  stage_inputs m (some s) = s.attested_inputs

  -- The capability's stage, where the profile has an engine and the capability is given.
  abbrev stage_of : MachineProfile → Option String → Option EngineStage
  stage_of m none = none
  stage_of m (some capability) = elim m.engine [
    | none ↦ none
    | some r ↦ if is_empty capability then none else stage_for r capability
  ]

  abbrev inputs_of_profile : Option String → Option (String × MachineProfile) → List String
  inputs_of_profile capability none = h3_attested_inputs
  inputs_of_profile capability (some (name, m)) = stage_inputs m (stage_of m capability)

  unfoldable pub recipe_attested_inputs :
      Dict MachineProfile → String → Option String → Result (List String)
  recipe_attested_inputs table version capability = do
    found ← profile_for_recipe table version
    ok (inputs_of_profile capability found)

  -- `if entry.default is not None`
  abbrev defaults_of : List (String × Option Value) → Fields
  defaults_of [] = end
  defaults_of ((name, none) ∷ entries) = defaults_of entries
  defaults_of ((name, some v) ∷ entries) = field name v (defaults_of entries)

  abbrev profile_defaults : Option (String × MachineProfile) → Result Fields
  profile_defaults none = ok end
  profile_defaults (some (name, m)) = elim (m.kind == "comfy") [
    | false ↦ ok end
    | true ↦ do t ← template_for k name m; ok (defaults_of t.inputs)
  ]

  unfoldable pub recipe_input_defaults : Dict MachineProfile → String → Result Fields
  recipe_input_defaults table version = profile_for_recipe table version >>= profile_defaults

-- Every unusable profile's name, capabilities and recipe version, each as a set.
pub record Unqualified : Type 0 where
  pub profiles : List String
  pub capability_ids : List String
  pub recipe_versions : List String

abbrev pub add_profile : String → MachineProfile → String → Unqualified → Unqualified
add_profile name m version u = record {
  profiles = name ∷ u.profiles;
  capability_ids = profile_capability_ids m ++ u.capability_ids;
  recipe_versions = version ∷ u.recipe_versions;
}

unfoldable pub unqualified : Package → Dict MachineProfile → Result Unqualified
unfolding profile_capability_ids
unqualified k [] = ok (record { profiles = []; capability_ids = []; recipe_versions = [] })
unqualified k ((name, m) ∷ table) = do
  let others = unqualified k table
  elim (is_usable m) [
    | true ↦ others
    | false ↦ do version ← profile_version k name m; u ← others; ok (add_profile name m version u)
  ]
