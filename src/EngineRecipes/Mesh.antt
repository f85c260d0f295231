-- ===== src/EngineRecipes/Mesh.antt =====
-- The recipe that engine_recipes.py declares: `MESH3D_RECIPE` and `ENGINE_RECIPES`.
use outbound_gpu_worker_pool.EngineRecipes.{
  mesh3d, mesh3d_mesh_capability, mesh3d_clean_capability, view_roles, EngineStage, EngineRecipe,
}
use outbound_gpu_worker_pool.Base.{String, some, [], ◌∷◌, pos, Dict}
use outbound_gpu_worker_pool.Contracts.{int, nil, cons, text_items}

abbrev mesh_stage : EngineStage
mesh_stage = record {
  capability_id = mesh3d_mesh_capability;
  stage = "mesh";
  inputs = view_roles;
  required_inputs = "front" ∷ [];
  settings =
      (
        "resolution",
        record { kind = "choices"; values = cons (int (pos 512)) (cons (int (pos 1024)) nil) },
      )
      ∷ (
        "seed",
        record { kind = "range"; values = cons (int (pos 0)) (cons (int (pos 2147483647)) nil) },
      )
      ∷ [];
  required_settings = "resolution" ∷ "seed" ∷ [];
  one_of_settings = [];
  attested_inputs = "resolution" ∷ "seed" ∷ [];
  deadline_seconds = 1800;
  weight_ids =
      "trellis2-4b-fp8" ∷ "trellis-image-large-ss-decoder" ∷ "dinov3-vitl16" ∷ "birefnet-general"
      ∷ "birefnet-general-lite" ∷ [];
}

abbrev clean_stage : EngineStage
clean_stage = record {
  capability_id = mesh3d_clean_capability;
  stage = "clean";
  inputs = "mesh" ∷ view_roles;
  required_inputs = "mesh" ∷ [];
  settings =
      (
        "quality_tier",
        record {
          kind = "choices";
          values = text_items ("draft" ∷ "standard" ∷ "high" ∷ "ultra" ∷ []);
        },
      )
      ∷ (
        "target_triangles",
        record { kind = "range"; values = cons (int (pos 1000)) (cons (int (pos 500000)) nil) },
      )
      ∷ [];
  required_settings = [];
  one_of_settings = "quality_tier" ∷ "target_triangles" ∷ [];
  attested_inputs = "quality_tier" ∷ "target_triangles" ∷ [];
  deadline_seconds = 600;
  weight_ids = [];
}

abbrev mesh_provenance : Dict String
mesh_provenance =
    ("status", "qualified: measured on one RTX 4090 (ilya-desktop), 2026-11-05/06")
    ∷ (
      "scope",
      "front view only, mesh resolution 1024, clean standard tier without view projection, one RTX 4090 24 GB (WSL2, driver 610.88); multi-view, refine and the high/ultra tiers are unmeasured",
    )
    ∷ (
      "determinism",
      "mesh output is not deterministic: the same spec and seed gave a different mesh (sha256, face count, watertightness), so provenance never claims byte reproducibility",
    )
    ∷ (
      "engine_pins",
      "AISmith-3D tag engine-v0.1.0 (f7466926); lock digests computed at the tag and matched by inspect --full on the qualifying machine, 2026-11-07",
    )
    ∷ (
      "weights",
      "each stage requires only the weight sets it loads; the rig checkpoint (phase 2) is not required by mesh or clean",
    )
    ∷ (
      "min_vram_mb",
      "kept at 24 GB by decision; measured engine peaks were about 6.9 GB (mesh) and 3 GB (clean). Smaller cards get their own profile after a run on such a card",
    )
    ∷ (
      "cuda_architecture",
      "TRELLIS.2 native build contract (native-contract.json cuda_architecture 8.9); matched on the qualifying RTX 4090",
    )
    ∷ ("blender", "Blender 4.2.23 LTS on the qualifying machine")
    ∷ (
      "mesh_deadline_seconds",
      "1800 by decision; measured wall time 1:44 to 3:27 over 4 runs (engine 102 to 205 s)",
    )
    ∷ (
      "clean_deadline_seconds",
      "600 by decision; measured wall time 0:46 to 0:49 over 3 runs (engine 44 to 46 s)",
    )
    ∷ ("mixed_mode", "one profile at a time by decision: not shared with H3 on one GPU")
    ∷ (
      "mesh_resolutions",
      "AISmith-3D run_trellis_fp8 runs 768 at 1024, so only 512 and 1024 are accepted",
    )
    ∷ []

abbrev pub mesh3d_recipe : EngineRecipe
mesh3d_recipe = record {
  engine = "aismith-engine";
  engine_tag = some "engine-v0.1.0";
  engine_commit = some "f7466926135bd1cdb9801432ce9d5371ad441596";
  sources_lock_sha256 = some "34e7c16907f20268952173fb4f0c5b69dfd674e60a5017502ac2efe4fe19549b";
  weights_lock_sha256 = some "c03f5a068628ebbff378c6f833a4ef04bd6fa06b0db6380a7514d6f5ac5c9d33";
  cuda_architecture = "8.9";
  blender_series = "4.2";
  min_vram_mb = 24000;
  stages = mesh_stage ∷ clean_stage ∷ [];
  provenance = mesh_provenance;
}

-- Every engine recipe that the package declares.
abbrev pub engine_recipes : Dict EngineRecipe
engine_recipes = (mesh3d, mesh3d_recipe) ∷ []
