-- ===== src/Service/Verification.antt =====
-- What a manifest has to show before its job counts as completed: `_verify_output` of service.py.
use outbound_gpu_worker_pool.Base.{
  ℕ, String, Bool, true, false, not, ◌||◌, Option, none, some, List, [], ◌∷◌, ltb, is_some, ℤ_eq,
  ◌==◌, ℕ_eq, String_eq, Option_eq, List_eq, Dict,
}
use outbound_gpu_worker_pool.Contracts.{
  raise_if, completion_rejected, Result, ok, err, publication_mode_immutable_create_once, field_get,
  value_eq, Value, null, str, dict, Fields, JobRecord, AssetDescriptor, OutputManifest,
}
use outbound_gpu_worker_pool.Stdlib.{Stdlib}
use outbound_gpu_worker_pool.Assets.{describe, read_limited}
use outbound_gpu_worker_pool.Service.{Profiles, Settings, Pool}
use outbound_gpu_worker_pool.Service.Qualification.{unqualified_reason, pinned_recipe}

abbrev or_null : Option Value → Value
or_null none = null
or_null (some v) = v

-- `any(reported.get(k) != v for k, v in versions.items())`
abbrev versions_differ : Dict String → Fields → Bool
versions_differ [] reported = false
versions_differ ((k, v) ∷ d) reported =
    not (value_eq (or_null (field_get k reported)) (str v)) || versions_differ d reported

-- `record.payload[k] if k in record.payload else defaults.get(k)`
abbrev expected_input : Fields → Fields → String → Value
expected_input payload defaults k = elim (field_get k payload) [
  | some v ↦ v
  | none ↦ or_null (field_get k defaults)
]

abbrev inputs_differ : Fields → Fields → Fields → List String → Bool
inputs_differ payload defaults effective [] = false
inputs_differ payload defaults effective (k ∷ ks) =
    not (value_eq (or_null (field_get k effective)) (expected_input payload defaults k))
    || inputs_differ payload defaults effective ks

-- `isinstance(v, dict)` and the test on it.
abbrev dict_fails : Option Value → (Fields → Bool) → Bool
dict_fails (some (dict fs)) f = f fs
dict_fails _ f = true

abbrev pub reject_if : Bool → String → Result (Unit {0})
reject_if b reason = raise_if b (completion_rejected reason)

-- What a job that pins a recipe must have attested.
unfoldable pub verify_recipe :
    Profiles → JobRecord → OutputManifest → Option String → Result (Unit {0})
verify_recipe q r m none = ok tt
verify_recipe q r m (some recipe) = elim reported [
  | true ↦ err (completion_rejected "recipe_configuration_mismatch")
  | false ↦
      reject_if
        (dict_fails (field_get "effective_inputs" m.diagnostics) (λ fs.
          inputs_differ r.payload (q.input_defaults recipe) fs
            (q.attested_inputs recipe r.capability_id)))
        "effective_inputs_mismatch"
]
  where
    reported : Bool
    reported =
        dict_fails (field_get "runtime_versions" m.diagnostics)
          (versions_differ r.requirements.runtime_versions)

abbrev pub then_check : Result (Unit {0}) → Result (Unit {0}) → Result (Unit {0})
then_check (err e) k = err e
then_check (ok _) k = k

-- What the manifest says of the request that it answers.
unfoldable pub verify_echo : JobRecord → OutputManifest → Result (Unit {0})
verify_echo r m =
    then_check (reject_if (not (m.output_key == r.output_key)) "output_key_mismatch") (
      then_check
        (reject_if (not (m.idempotency_key == r.idempotency_key)) "idempotency_key_mismatch")
        (then_check
          (reject_if (not (m.request_digest == r.request_digest)) "request_digest_mismatch")
          (reject_if (not (m.publication_mode == publication_mode_immutable_create_once))
            "publication_mode_mismatch")))

abbrev pub digest_differs : Stdlib → OutputManifest → Result (List ℕ) → Result (Unit {0})
digest_differs lib m (err e) = err e
digest_differs lib m (ok content) =
    reject_if (not (lib.sha256_hex content == m.sha256)) "sha256_mismatch"

abbrev pub stored_size : Option AssetDescriptor → OutputManifest → Result (Unit {0})
stored_size none m = err (completion_rejected "output_missing")
stored_size (some d) m = reject_if (not (d.size == m.byte_length)) "byte_length_mismatch"

module _ (s : Settings) where
  -- What stands in the asset store under the output key.
  unfoldable pub verify_bytes : JobRecord → OutputManifest → Pool → Result (Unit {0})
  verify_bytes r m p = then_check (stored_size (describe r.output_key p.assets) m) (
      then_check (reject_if (ltb s.max_verify_bytes m.byte_length) "output_too_large")
        (digest_differs s.lib m (read_limited r.output_key s.max_verify_bytes p.assets)))

  unfoldable pub verify_output : JobRecord → OutputManifest → Pool → Result (Unit {0})
  unfolding verify_recipe verify_echo verify_bytes
  verify_output r m p =
      then_check
        (reject_if
          (is_some
            (unqualified_reason s.profiles (r.capability_id ∷ []) r.requirements.runtime_versions))
          "profile_not_qualified")
        (then_check (verify_recipe s.profiles r m (pinned_recipe r.requirements.runtime_versions))
          (then_check (verify_echo r m) (verify_bytes r m p)))
