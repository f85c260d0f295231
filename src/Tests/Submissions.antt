-- ===== src/Tests/Submissions.antt =====
-- The theorems on validation and on replays at a concrete request.
use outbound_gpu_worker_pool.Base.{◌+◌, ◌≤◌, ◌≡◌, refl, ◌↔◌, codes, len, pos}
use outbound_gpu_worker_pool.Contracts.{
  ok, finite, Value, int, float, list, dict, nil, cons, end, field,
}
use outbound_gpu_worker_pool.Json.{dumps}
use outbound_gpu_worker_pool.Regex.{derivative, fullmatch}
use outbound_gpu_worker_pool.Validation.{
  capability_id_matches, validate_capability_id, walk_tree, validate_json_tree,
  validate_job_payload, validate_job_requirements, validate_job_submission,
}
use outbound_gpu_worker_pool.Validation.Depth.{height, AllFinite, validate_json_tree_iff}
use outbound_gpu_worker_pool.Validation.Bounds.{validate_job_submission-IsBounded, IsBounded}
use outbound_gpu_worker_pool.Tests.Samples.{python, upscale}
use outbound_gpu_worker_pool.Validation.CapabilityIds.{validate_capability_id_iff, IsCapabilityId}

upscale-valid : validate_job_submission python upscale ≡ ok tt
unfolding validate_job_submission validate_capability_id capability_id_matches fullmatch derivative
    validate_job_requirements validate_job_payload validate_json_tree walk_tree dumps
upscale-valid = refl

-- A payload with a list in a dict.
abbrev nested : Value
nested = dict (field "sizes" (list (cons (int (pos 1)) (cons (float (finite (pos 4))) nil))) end)

validate_job_submission-IsBounded_example : IsBounded python upscale
validate_job_submission-IsBounded_example =
    validate_job_submission-IsBounded python upscale upscale-valid

validate_json_tree_iff_example :
    (validate_json_tree nested ≡ ok tt) ↔ ((1 + height nested ≤ 8) × AllFinite nested)
validate_json_tree_iff_example = validate_json_tree_iff nested

validate_capability_id_iff_example :
    (validate_capability_id "image.upscale.v1" ≡ ok "image.upscale.v1")
    ↔ ((len "image.upscale.v1" ≤ 128) × IsCapabilityId (codes "image.upscale.v1"))
validate_capability_id_iff_example = validate_capability_id_iff "image.upscale.v1"
