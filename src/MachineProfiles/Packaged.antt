-- ===== src/MachineProfiles/Packaged.antt =====
-- The profiles that machine_profiles.py declares: their descriptions, the launch flags that they
-- ask for, and `PROFILES`.
use outbound_gpu_worker_pool.Base.{
  ℕ, String, Bool, true, false, not, ◌||◌, Option, none, some, List, [], ◌∷◌, map, if◌then◌else◌,
  is_some, any, contains, subset, strip_prefix, ℤ_eq, pos, ◌==◌, ℕ_eq, String_eq, Option_eq,
  List_eq, Dict, get,
}
use outbound_gpu_worker_pool.MachineProfiles.{Template, MachineProfile}
use outbound_gpu_worker_pool.Contracts.{
  ◌>>=◌, ◌>>◌, raise_if, value_error, foreign_error, Result, ok, err, float_unit, finite, Value,
  null, bool, int, float, str, list, dict, Fields, end, field, text_items,
}
use outbound_gpu_worker_pool.MachineProfiles.Versions.{h3_attested_inputs}
use outbound_gpu_worker_pool.EngineRecipes.{
  mesh3d, mesh3d_mesh_capability, first_occurrences, flattened, EngineRecipe,
}
use outbound_gpu_worker_pool.EngineRecipes.Mesh.{mesh3d_recipe}

abbrev pub lightx8 : String
lightx8 = "h3-16gb-lightx8"

abbrev pub standard : String
standard = "h3-24gb-standard"

abbrev pub subject12 : String
subject12 = "flux2-klein-subject-12gb"

abbrev lightx8_capability : String
lightx8_capability = "video.minimax_h3.text_to_video.w4a8_16gb.lightx8.v1"

abbrev standard_capability : String
standard_capability = "video.minimax_h3.text_to_video.v1"

abbrev subject12_capability : String
subject12_capability = "image.flux2_klein.subject.12gb.v1"

abbrev subject12_refused_flags : List String
subject12_refused_flags = "--gpu-only" ∷ "--highvram" ∷ []

-- A dict of which no key stands twice.
abbrev fields_of : Dict Value → Fields
fields_of [] = end
fields_of ((key, v) ∷ d) = field key v (fields_of d)

abbrev number : ℕ → Value
number n = int (pos n)

abbrev subject12_evidence : String
subject12_evidence =
    "RTX 4090 with VRAM held to 11,914 MiB free (and 10,900 MiB): 0, 1 and 3 references at 1024x1024, 20 steps, byte-identical to the v2 graph, peak 10,218 MiB, worst 23.4 s; 2 references and a physical 12GB card unmeasured"

unfoldable pub subject12_description : Template → List String → Fields
subject12_description t models = fields_of (
    ("profile", str subject12)
    ∷ ("capability_id", str subject12_capability)
    ∷ ("template_version", str t.template_version)
    ∷ ("models", list (text_items models))
    ∷ ("steps", number 20)
    ∷ ("min_vram_mb", number 12000)
    ∷ ("sampler", str "euler")
    ∷ ("scheduler", str "Flux2Scheduler")
    ∷ ("diffusion_precision", str "FP8 (stored)")
    ∷ ("text_encoder_precision", str "BF16")
    ∷ (
      "bounds",
      dict (
          fields_of (
            ("width", number 1024)
            ∷ ("height", number 1024)
            ∷ ("references", number t.image_slots)
            ∷ [])),
    )
    ∷ ("refused_flags", list (text_items subject12_refused_flags))
    ∷ ("evidence", str subject12_evidence)
    ∷ [])

-- `_video_description`; `light` is its `profile == LIGHTX8`.
abbrev video_fields : Bool → String → String → Template → List String → Fields
video_fields light profile capability t models = fields_of (
    ("profile", str profile)
    ∷ ("capability_id", str capability)
    ∷ ("template_version", str t.template_version)
    ∷ ("models", list (text_items models))
    ∷ ("steps", number (if light then 8 else 20))
    ∷ ("min_vram_mb", number (if light then 16000 else 24000))
    ∷ ("sampler", str "res_multistep")
    ∷ ("scheduler", str "simple")
    ∷ ("diffusion_precision", str (if light then "W4A8 mixed" else "INT8 ConvRot"))
    ∷ ("text_encoder_precision", str "NVFP4/AWQ")
    ∷ ("video_vae_precision", str (if light then "INT8 ConvRot" else "FP16"))
    ∷ ("adapter", if light then str "LightX2V FL2V 8-step v1.0 768p" else null)
    ∷ ("adapter_strength", if light then float (finite (pos float_unit)) else null)
    ∷ ("reserve_vram_gb", if light then number 0 else null)
    ∷ (
      "bounds",
      dict (
          fields_of (
            if light
            then ("width", number 512)
              ∷ ("height", number 512)
              ∷ ("duration_seconds", number 4)
              ∷ ("fps", number 24)
              ∷ []
            else ("width", number 1344)
              ∷ ("height", number 1344)
              ∷ ("duration_seconds", number 15)
              ∷ [])),
    )
    ∷ ("h3_attention", str (if light then "comfy kitchen attention" else "worker-configured"))
    ∷ ("process_attention", str (if light then "sage" else "worker-configured"))
    ∷ ("audio_decode", bool (not light))
    ∷ (
      "evidence",
      str (
          if light
          then "RTX 4080 walk comparison; user selected B"
          else "Existing standard template; no 24GB benchmark established"),
    )
    ∷ [])

unfoldable pub video_description : String → String → Template → List String → Fields
video_description profile capability t models =
    video_fields (profile == lightx8) profile capability t models

unfoldable pub check_subject12_launch : List String → Dict String → Result (Unit {0})
check_subject12_launch argv system = raise_if (any (contains argv) subject12_refused_flags) (
    value_error
      "12GB subject recipe refuses --gpu-only and --highvram; it was measured with models offloaded between stages")

-- `argv[argv.index(flag)+1]`
abbrev flag_value : String → List String → Result String
flag_value flag [] = err (value_error "the flag is not in list")
flag_value flag (x ∷ []) =
    if x == flag
    then err (foreign_error "IndexError")
    else err (value_error "the flag is not in list")
flag_value flag (x ∷ y ∷ xs) =
    let later = flag_value flag (y ∷ xs) in if x == flag then ok y else later

-- `part in s`
abbrev text_contains : String → String → Bool
text_contains part String.[] = is_some (strip_prefix part String.[])
text_contains part (String.◌∷◌ c s) =
    is_some (strip_prefix part (String.◌∷◌ c s)) || text_contains part s

abbrev text_or : String → Option String → String
text_or s none = s
text_or s (some t) = t

abbrev lightx8_flags : List String
lightx8_flags =
    "--use-sage-attention" ∷ "--enable-dynamic-vram" ∷ "--fast-disk" ∷ "--disable-pinned-memory"
    ∷ []

unfoldable pub check_lightx8_launch : List String → Dict String → Result (Unit {0})
unfolding strip_prefix
check_lightx8_launch argv system = do
  raise_if (not (subset lightx8_flags argv) || not (contains argv "--reserve-vram")) (
      value_error
        "16GB recipe requires Sage, dynamic VRAM, fast disk, disabled pinned memory and reserve-vram 0")
  reserved ← flag_value "--reserve-vram" argv
  raise_if (not (reserved == "0" || reserved == "0.0"))
      (value_error "16GB recipe requires reserve-vram 0")
  raise_if (not (text_contains "+cu13" (text_or "" (get "pytorch_version" system))))
      (value_error "16GB recipe requires a CUDA 13 PyTorch build")

abbrev comfy_profile : String → String → String → MachineProfile
comfy_profile profile capability directory = record {
  name = profile;
  capability_id = capability;
  template_directory = directory;
  describe = some (video_description profile capability);
  attested_inputs = h3_attested_inputs;
  mixed_mode = true;
  check_launch = none;
  kind = "comfy";
  engine = none;
  qualified = true;
}

-- What some stage of an engine attests.
abbrev all_attested : EngineRecipe → List String
all_attested r = first_occurrences [] (flattened (map (λ s. s.attested_inputs) r.stages))

-- `PROFILES`
unfoldable pub machine_profiles : Dict MachineProfile
machine_profiles =
    (standard, comfy_profile standard standard_capability "standard")
    ∷ (
      lightx8,
      record (comfy_profile lightx8 lightx8_capability "profile") {
        mixed_mode = false;
        check_launch = some check_lightx8_launch;
      },
    )
    ∷ (
      subject12,
      record (comfy_profile subject12 subject12_capability "profile") {
        describe = some subject12_description;
        check_launch = some check_subject12_launch;
      },
    )
    ∷ (
      mesh3d,
      record {
        name = mesh3d;
        capability_id = mesh3d_mesh_capability;
        template_directory = "";
        describe = none;
        attested_inputs = all_attested mesh3d_recipe;
        mixed_mode = false;
        check_launch = none;
        kind = "engine";
        engine = some mesh3d_recipe;
        qualified = true;
      },
    )
    ∷ []
