-- ===== src/Tests/Profiles.antt =====
-- Machine profiles at concrete tables: the declared ones, and one whose engine has no pins.
use outbound_gpu_worker_pool.MachineProfiles.Packaged.{standard, subject12, machine_profiles}
use outbound_gpu_worker_pool.MachineProfiles.{
  is_usable, profile_of, unusable_reason, require_qualified, profile_version, MachineProfile,
  Package,
}
use outbound_gpu_worker_pool.MachineProfiles.Parsing.{profile_names, parse_profiles}
use outbound_gpu_worker_pool.MachineProfiles.Versions.{
  recipe_key, namespaced_versions, h3_attested_inputs, unqualified, Unqualified,
}
use outbound_gpu_worker_pool.EngineRecipes.{
  mesh3d_mesh_capability, mesh3d_clean_capability, recipe_capability_ids, recipe_description,
  engine_recipe_version, EngineRecipe,
}
use outbound_gpu_worker_pool.Base.{
  ◌<◌, String, ◌≡◌, refl, inl, true, false, none, some, [], ◌∷◌, length, All, concat, strip_prefix,
  split, Dict, get,
}
use outbound_gpu_worker_pool.Contracts.{value_error, ok, err, end}
use outbound_gpu_worker_pool.EngineRecipes.Mesh.{mesh3d_recipe}
use outbound_gpu_worker_pool.Tests.Samples.{python}
use outbound_gpu_worker_pool.MachineProfiles.Refused.{
  refusing, unqualified_reason-Usable, by_profile,
}
use outbound_gpu_worker_pool.MachineProfiles.Usable.{Once, Runs, Shares, parse_profiles-Runs}
use outbound_gpu_worker_pool.Service.Qualification.{unqualified_reason}
use outbound_gpu_worker_pool.Json.{dumps}
use outbound_gpu_worker_pool.Service.{Profiles}
use outbound_gpu_worker_pool.MachineProfiles.Pins.{Pins, pinned_recipe-namespaced_versions}

two_profiles :
    parse_profiles machine_profiles python "h3-24gb-standard,flux2-klein-subject-12gb"
    ≡ ok (standard ∷ subject12 ∷ [])
unfolding parse_profiles split profile_of get machine_profiles require_qualified unusable_reason
    is_usable
two_profiles = refl

parse_profiles-Runs_example :
    ((standard ∷ subject12 ∷ []) ≡ profile_names python "h3-24gb-standard,flux2-klein-subject-12gb")
    × All (Runs machine_profiles) (standard ∷ subject12 ∷ [])
    × Once (standard ∷ subject12 ∷ [])
    × (1 < length (standard ∷ subject12 ∷ [])
        → All (Shares machine_profiles) (standard ∷ subject12 ∷ []))
parse_profiles-Runs_example =
    parse_profiles-Runs machine_profiles python "h3-24gb-standard,flux2-klein-subject-12gb"
      (standard ∷ subject12 ∷ []) two_profiles

abbrev no_templates : Package
no_templates = record {
  lib = python;
  template = λ directory capability. err (value_error "no template");
}

abbrev no_pins : EngineRecipe
no_pins = record mesh3d_recipe { engine_tag = none }

abbrev provisional : MachineProfile
provisional = record {
  name = "draft";
  capability_id = "mesh.draft.v1";
  template_directory = "";
  describe = none;
  attested_inputs = [];
  mixed_mode = false;
  check_launch = none;
  kind = "engine";
  engine = some no_pins;
  qualified = false;
}

abbrev plain : MachineProfile
plain = record provisional { name = "plain"; engine = none; qualified = true }

abbrev profiles : Dict MachineProfile
profiles = ("draft", provisional) ∷ ("plain", plain) ∷ []

abbrev draft_refused : Unqualified
draft_refused = record {
  profiles = "draft" ∷ [];
  capability_ids = mesh3d_mesh_capability ∷ mesh3d_clean_capability ∷ [];
  recipe_versions = "digest" ∷ [];
}

draft_unqualified : unqualified no_templates profiles ≡ ok draft_refused
unfolding unqualified is_usable profile_version engine_recipe_version dumps recipe_description
    recipe_capability_ids
draft_unqualified = refl

abbrev plain_versions : Dict String
plain_versions = ("magic_profile", "plain") ∷ ("pytorch", "2.9") ∷ []

abbrev no_refusals : Profiles
no_refusals = record {
  refused_profiles = [];
  refused_capability_ids = [];
  refused_recipe_versions = [];
  attested_inputs = λ r c. h3_attested_inputs;
  input_defaults = λ r. end;
}

plain_passes :
    unqualified_reason (refusing draft_refused no_refusals) ("mesh.draft.v1" ∷ []) plain_versions
    ≡ none
unfolding unqualified_reason refusing
plain_passes = refl

plain_known : get "plain" profiles ≡ some plain
unfolding get
plain_known = refl

unqualified_reason-Usable_example : is_usable plain ≡ true
unqualified_reason-Usable_example =
    unqualified_reason-Usable no_templates profiles draft_refused no_refusals ("mesh.draft.v1" ∷ [])
      plain_versions "plain" plain draft_unqualified plain_passes plain_known
      (by_profile (inl refl))

abbrev subject_versions : Dict String
subject_versions =
    ("magic_recipe", "f00d")
    ∷ ("pytorch", "2.9")
    ∷ ("magic_profile", subject12)
    ∷ ("magic_feature_last_frame", "1")
    ∷ ("magic_config", "c0de")
    ∷ []

abbrev subject_own : Dict String
subject_own =
    ("magic_recipe@flux2-klein-subject-12gb", "f00d")
    ∷ ("magic_config@flux2-klein-subject-12gb", "c0de")
    ∷ ("magic_profile@flux2-klein-subject-12gb", subject12)
    ∷ ("magic_feature_last_frame@flux2-klein-subject-12gb", "1")
    ∷ []

subject_namespaced : namespaced_versions subject12 subject_versions ≡ ok subject_own
unfolding namespaced_versions recipe_key strip_prefix get
subject_namespaced = refl

pinned_recipe-namespaced_versions_example :
    Pins (concat "magic_recipe@" subject12) (get "magic_recipe" subject_versions) subject_own
pinned_recipe-namespaced_versions_example =
    pinned_recipe-namespaced_versions subject12 subject_versions subject_own subject_namespaced
