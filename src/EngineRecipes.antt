-- ===== src/EngineRecipes.antt =====
-- engine_recipes.py: what an engine profile runs, as pins that a worker must match, and the
-- fingerprint of its description.
pub mod Mesh
use outbound_gpu_worker_pool.Stdlib.{Stdlib}
use outbound_gpu_worker_pool.Base.{
  ℕ, String, Bool, true, Option, none, some, List, [], ◌∷◌, ◌++◌, map, if◌then◌else◌, filter,
  contains, is_empty, concat, ℤ_eq, pos, ◌==◌, ℕ_eq, String_eq, Option_eq, List_eq, Dict, keys,
}
use outbound_gpu_worker_pool.Contracts.{
  ◌>>=◌, ◌>>◌, Result, ok, Value, null, int, str, list, dict, Items, nil, cons, Fields, end, field,
  text_items, text_fields,
}
use outbound_gpu_worker_pool.Json.{dumps}

abbrev pub mesh3d : String
mesh3d = "mesh3d-24gb-standard"

abbrev pub mesh3d_mesh_capability : String
mesh3d_mesh_capability = "mesh.trellis2.image_to_mesh.v1"

abbrev pub mesh3d_clean_capability : String
mesh3d_clean_capability = "mesh.blender.clean.v1"

abbrev pub view_roles : List String
view_roles = "front" ∷ "back" ∷ "left" ∷ "right" ∷ []

-- The values of a setting: the kind of the rule (`choices` or `range`) and its values.
pub record SettingRule : Type 0 where
  pub kind : String
  pub values : Items

pub record EngineStage : Type 0 where
  pub capability_id : String
  pub stage : String
  pub inputs : List String
  pub required_inputs : List String
  pub settings : Dict SettingRule
  pub required_settings : List String
  pub one_of_settings : List String
  pub attested_inputs : List String
  pub deadline_seconds : ℕ
  pub weight_ids : List String

pub record EngineRecipe : Type 0 where
  pub engine : String
  pub engine_tag : Option String
  pub engine_commit : Option String
  pub sources_lock_sha256 : Option String
  pub weights_lock_sha256 : Option String
  pub cuda_architecture : String
  pub blender_series : String
  pub min_vram_mb : ℕ
  pub stages : List EngineStage
  pub provenance : Dict String

-- `not getattr(self, pin)`: None and the empty text.
abbrev pub is_unset : Option String → Bool
is_unset none = true
is_unset (some s) = is_empty s

abbrev named_pins : EngineRecipe → Dict (Option String)
named_pins r =
    ("engine_tag", r.engine_tag)
    ∷ ("engine_commit", r.engine_commit)
    ∷ ("sources_lock_sha256", r.sources_lock_sha256)
    ∷ ("weights_lock_sha256", r.weights_lock_sha256)
    ∷ []

unfoldable pub missing_pins : EngineRecipe → List String
missing_pins r = keys (filter (λ (pin : String × Option String). is_unset pin.1) (named_pins r))

-- `tuple(dict.fromkeys(xs))`, after the texts that have been met.
unfoldable pub first_occurrences : List String → List String → List String
first_occurrences met [] = []
first_occurrences met (x ∷ xs) =
    let rest = first_occurrences (x ∷ met) xs in if contains met x then rest else x ∷ rest

abbrev pub flattened : List (List String) → List String
flattened [] = []
flattened (xs ∷ xss) = xs ++ flattened xss

unfoldable pub recipe_weight_ids : EngineRecipe → List String
recipe_weight_ids r = first_occurrences [] (flattened (map (λ s. s.weight_ids) r.stages))

unfoldable pub recipe_capability_ids : EngineRecipe → List String
recipe_capability_ids r = map (λ s. s.capability_id) r.stages

abbrev pub stage_among : String → List EngineStage → Option EngineStage
stage_among capability [] = none
stage_among capability (s ∷ ss) =
    if s.capability_id == capability then some s else stage_among capability ss

unfoldable pub stage_for : EngineRecipe → String → Option EngineStage
stage_for r capability = stage_among capability r.stages

abbrev texts : List String → Value
texts xs = list (text_items xs)

abbrev pub text_or_null : Option String → Value
text_or_null none = null
text_or_null (some s) = str s

abbrev setting_fields : Dict SettingRule → Fields
setting_fields [] = end
setting_fields ((name, rule) ∷ d) =
    field name (dict (field rule.kind (list rule.values) end)) (setting_fields d)

unfoldable stage_description : EngineStage → Value
stage_description s = dict (
    field "capability_id" (str s.capability_id) (
      field "stage" (str s.stage) (
        field "inputs" (texts s.inputs) (
          field "required_inputs" (texts s.required_inputs) (
            field "settings" (dict (setting_fields s.settings)) (
              field "required_settings" (texts s.required_settings) (
                field "one_of_settings" (texts s.one_of_settings) (
                  field "attested_inputs" (texts s.attested_inputs) (
                    field "deadline_seconds" (int (pos s.deadline_seconds))
                      (field "weight_ids" (texts s.weight_ids) end))))))))))

abbrev described_stages : List EngineStage → Items
described_stages [] = nil
described_stages (s ∷ ss) = cons (stage_description s) (described_stages ss)

unfoldable pub recipe_description : EngineRecipe → String → Fields
unfolding stage_description
recipe_description r profile = field "profile" (str profile) (
    field "kind" (str "engine") (
      field "engine" (str r.engine) (
        field "engine_tag" (text_or_null r.engine_tag) (
          field "engine_commit" (text_or_null r.engine_commit) (
            field "sources_lock_sha256" (text_or_null r.sources_lock_sha256) (
              field "weights_lock_sha256" (text_or_null r.weights_lock_sha256) (
                field "cuda_architecture" (str r.cuda_architecture) (
                  field "blender" (str (concat r.blender_series ".x LTS")) (
                    field "min_vram_mb" (int (pos r.min_vram_mb)) (
                      field "capabilities" (list (described_stages r.stages))
                        (field "provenance" (dict (text_fields r.provenance)) end)))))))))))

unfoldable pub engine_recipe_version : Stdlib → Fields → Result String
engine_recipe_version lib description = do
  text ← dumps lib (dict (field "description" (dict description) end))
  ok (lib.sha256_hex text)
