-- ===== src/Routes/Manifests.antt =====
-- The completion request of routes.py, with its manifest.
use outbound_gpu_worker_pool.Base.{
  ℕ, String, Bool, ◌&&◌, Option, [], ◌∷◌, leb, codes, len, pos_part, int_le, ℤ, pos,
}
use outbound_gpu_worker_pool.Contracts.{
  max_job_id_length, max_asset_key_length, Fields, OutputManifest,
}
use outbound_gpu_worker_pool.Stdlib.{Stdlib}
use outbound_gpu_worker_pool.Regex.{fullmatch, times, Regex, class}
use outbound_gpu_worker_pool.Validation.{validate_job_payload}
use outbound_gpu_worker_pool.Routes.Requests.{
  max_plugin_id_length, max_plugin_version_length, text_within, optional, valid_token, is_ok,
}

abbrev max_model_id_length : ℕ
max_model_id_length = 128

abbrev max_model_version_length : ℕ
max_model_version_length = 64

abbrev sha256_pattern : Regex
sha256_pattern = times 64 (class ((b'0', b'9') ∷ (b'a', b'f') ∷ []))

unfoldable pub is_sha256 : String → Bool
unfolding fullmatch
is_sha256 s = leb (len s) 64 && fullmatch sha256_pattern (codes s)

pub record OutputManifestDto : Type 0 where
  pub output_key : String
  pub content_type : String
  pub byte_length : ℤ
  pub sha256 : String
  pub idempotency_key : String
  pub request_digest : String
  pub plugin_id : String
  pub plugin_version : String
  pub model_id : String
  pub model_version : String
  pub publication_mode : String
  pub seed : Option ℤ
  pub diagnostics : Fields

abbrev pub not_negative : ℤ → Bool
not_negative n = int_le (pos 0) n

-- `bounded_diagnostics` is the last test.
unfoldable pub valid_manifest : Stdlib → OutputManifestDto → Bool
unfolding is_sha256 validate_job_payload
valid_manifest lib m =
    text_within 1 max_asset_key_length m.output_key
    && text_within 1 128 m.content_type
    && not_negative m.byte_length
    && is_sha256 m.sha256
    && text_within 1 max_job_id_length m.idempotency_key
    && is_sha256 m.request_digest
    && text_within 1 max_plugin_id_length m.plugin_id
    && text_within 1 max_plugin_version_length m.plugin_version
    && text_within 1 max_model_id_length m.model_id
    && text_within 1 max_model_version_length m.model_version
    && text_within 1 64 m.publication_mode
    && optional not_negative m.seed
    && is_ok (validate_job_payload lib m.diagnostics)

unfoldable pub to_manifest : OutputManifestDto → OutputManifest
to_manifest m = record {
  output_key = m.output_key;
  content_type = m.content_type;
  byte_length = pos_part m.byte_length;
  sha256 = m.sha256;
  idempotency_key = m.idempotency_key;
  request_digest = m.request_digest;
  plugin_id = m.plugin_id;
  plugin_version = m.plugin_version;
  model_id = m.model_id;
  model_version = m.model_version;
  publication_mode = m.publication_mode;
  seed = m.seed;
  diagnostics = m.diagnostics;
}

pub record CompleteRequest : Type 0 where
  pub claim_token : String
  pub manifest : OutputManifestDto

unfoldable pub valid_complete : Stdlib → CompleteRequest → Bool
unfolding valid_manifest
valid_complete lib q = valid_token q.claim_token && valid_manifest lib q.manifest
