-- ===== src/MachineProfiles.antt =====
-- machine_profiles.py: the recipes that a worker's machine may be configured for, which of them are
-- usable, and their descriptions. The table of profiles and the packaged templates are arguments.
pub mod Parsing
pub mod Versions
pub mod Packaged
pub mod Usable
pub mod Refused
pub mod Pins
use outbound_gpu_worker_pool.Base.{
  ℕ, String, Bool, not, ◌&&◌, ◌||◌, Option, none, some, List, [], ◌∷◌, ◌++◌, if◌then◌else◌, is_some,
  contains, concat, ℤ_eq, ◌==◌, ℕ_eq, String_eq, Option_eq, List_eq, Dict, get,
}
use outbound_gpu_worker_pool.Stdlib.{Stdlib}
use outbound_gpu_worker_pool.Contracts.{
  ◌>>=◌, ◌>>◌, raise_if, value_error, type_error, profile_not_qualified, foreign_error, Result, ok,
  err, bool_eq, field_get, Value, bool, str, dict, Fields, end, field,
}
use outbound_gpu_worker_pool.Json.{dumps}
use outbound_gpu_worker_pool.EngineRecipes.{
  missing_pins, first_occurrences, recipe_capability_ids, recipe_description, engine_recipe_version,
  EngineRecipe,
}
use outbound_gpu_worker_pool.Service.Leases.{is_nil}
use outbound_gpu_worker_pool.Registry.{sort_texts}

-- What is read of a ComfyUI template: the graph by node, the number of its image slots, and the
-- names of its inputs with their defaults.
pub record Template : Type 0 where
  pub template_version : String
  pub graph : Fields
  pub image_slots : ℕ
  pub inputs : List (String × Option Value)

-- `features`, which reads the live ComfyUI, is left out.
pub record MachineProfile : Type 0 where
  pub name : String
  pub capability_id : String
  pub template_directory : String
  pub describe : Option (Template → List String → Fields)
  pub attested_inputs : List String
  pub mixed_mode : Bool
  pub check_launch : Option (List String → Dict String → Result (Unit {0}))
  pub kind : String
  pub engine : Option EngineRecipe
  pub qualified : Bool

-- The pins of the profile's engine that are not set.
abbrev pub unset_pins : Option EngineRecipe → List String
unset_pins none = []
unset_pins (some r) = missing_pins r

abbrev pub joined : List String → String
joined [] = ""
joined (s ∷ []) = s
joined (s ∷ t ∷ ts) = concat s (concat ", " (joined (t ∷ ts)))

-- `MachineProfile.__post_init__`
unfoldable pub check_profile : MachineProfile → Result (Unit {0})
check_profile m = do
  raise_if (not (m.kind == "comfy" || m.kind == "engine"))
      (value_error (concat m.name (concat ": unknown profile kind '" (concat m.kind "'"))))
  raise_if
      (not (bool_eq (m.kind == "engine") (is_some m.engine))
        || not (bool_eq (not (is_some m.describe)) (m.kind == "engine")))
      (value_error (concat m.name ": an engine profile has an engine recipe and no template"))
  raise_if (m.qualified && not (is_nil (unset_pins m.engine))) (
      value_error (
        concat m.name
          (concat " cannot be qualified with unset pins: " (joined (unset_pins m.engine)))))

unfoldable pub profile_capability_ids : MachineProfile → List String
profile_capability_ids m = elim m.engine [
  | some r ↦ recipe_capability_ids r
  | none ↦ m.capability_id ∷ []
]

unfoldable pub is_usable : MachineProfile → Bool
is_usable m = m.qualified && is_nil (unset_pins m.engine)

abbrev unusable_detail : List String → String
unusable_detail [] = "qualified is False"
unusable_detail (p ∷ ps) = concat "unset pins: " (joined (p ∷ ps))

abbrev unusable_text : String → MachineProfile → String
unusable_text profile m = concat profile (
    concat " is not qualified yet (" (
      concat (unusable_detail (unset_pins m.engine))
        "); it cannot be enrolled, registered or dispatched until its qualification sets the pins and marks it qualified"))

module _ (table : Dict MachineProfile) where
  -- `_profile`
  unfoldable pub profile_of : String → Result MachineProfile
  profile_of profile = elim (get profile table) [
    | some m ↦ ok m
    | none ↦ err (value_error (concat "Unknown machine profile: " profile))
  ]

  unfoldable pub unusable_reason : String → Result (Option String)
  unusable_reason profile = do
    m ← profile_of profile
    ok (if is_usable m then none else some (unusable_text profile m))

  unfoldable pub require_qualified : String → Result (Unit {0})
  require_qualified profile = do
    reason ← unusable_reason profile
    elim reason [ none ↦ ok tt | some r ↦ err (profile_not_qualified r) ]

abbrev or_key_error : Option Value → Result Value
or_key_error none = err (foreign_error "KeyError")
or_key_error (some v) = ok v

abbrev items_of : Value → Result Fields
items_of (dict fs) = ok fs
items_of _ = err (foreign_error "AttributeError")

-- `node['inputs']`
abbrev node_inputs : Value → Result Fields
node_inputs (dict fs) = or_key_error (field_get "inputs" fs) >>= items_of
node_inputs _ = err (foreign_error "TypeError")

abbrev model_keys : List String
model_keys = "unet_name" ∷ "clip_name" ∷ "vae_name" ∷ "lora_name" ∷ []

-- What the source takes from the package: its templates, by directory and capability.
pub record Package : Type 0 where
  pub lib : Stdlib
  pub template : String → String → Result Template

module _ (k : Package) where
  -- `str(v)`
  abbrev text_of : Value → String
  text_of (str s) = s
  text_of v = k.lib.render v

  abbrev input_models : Fields → List String
  input_models end = []
  input_models (field key v fs) =
      let rest = input_models fs in if contains model_keys key then text_of v ∷ rest else rest

  abbrev graph_models : Fields → Result (List String)
  graph_models end = ok []
  graph_models (field node v fs) = do
    inputs ← node_inputs v
    others ← graph_models fs
    ok (input_models inputs ++ others)

  -- The template of a profile: `registry_for(profile).template(spec.capability_id)`.
  unfoldable pub template_for : String → MachineProfile → Result Template
  template_for profile m = do
    raise_if (not (m.kind == "comfy"))
        (value_error (concat profile " is an engine profile; it has no ComfyUI template"))
    k.template (if m.template_directory == "profile" then "profile" else "standard") m.capability_id

  -- The description of a template with its graph. A template holds finite numbers only, so the
  -- `allow_nan` of `json.dumps` makes no difference.
  abbrev fingerprint : Fields → Fields → Result String
  fingerprint description graph = do
    text ←
        dumps k.lib (dict (field "description" (dict description) (field "graph" (dict graph) end)))
    ok (k.lib.sha256_hex text)

  abbrev described :
      Option (Template → List String → Fields) → Template → List String → Result Fields
  described none t models = err (type_error "'NoneType' object is not callable")
  described (some f) t models = ok (f t models)

  abbrev template_version_of : String → MachineProfile → Result String
  template_version_of profile m = do
    t ← template_for profile m
    models ← graph_models t.graph
    description ← described m.describe t (sort_texts (first_occurrences [] models))
    fingerprint description t.graph

  abbrev with_qualified : Bool → Fields → Fields
  with_qualified b end = field "qualified" (bool b) end
  with_qualified b (field key v fs) = field key v (with_qualified b fs)

  -- `describe_profile(profile)['recipe_version']`
  unfoldable pub profile_version : String → MachineProfile → Result String
  profile_version profile m = elim m.engine [
    | some r ↦
        engine_recipe_version k.lib (with_qualified m.qualified (recipe_description r profile))
    | none ↦ template_version_of profile m
  ]
