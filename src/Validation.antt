-- ===== src/Validation.antt =====
-- validation.py: the bounds on what a host may submit, and the digest of a request.
pub mod Tree
pub mod Depth
pub mod Bounds
pub mod CapabilityIds
use outbound_gpu_worker_pool.Base.{
  ℕ, zero, suc, ◌+◌, String, Bool, false, not, ◌&&◌, ◌||◌, Option, none, some, List, [], ◌∷◌, ◌++◌,
  ltb, if◌then◌else◌, length, any, distinct, codes, len, is_empty, concat, int_le, int_lt, ℤ_eq, ℤ,
  pos, ℕ_eq, String_eq, Option_eq, List_eq, values, keys,
}
use outbound_gpu_worker_pool.Contracts.{
  ◌>>=◌, ◌>>◌, raise_if, Error, value_error, Result, ok, err, max_job_id_length,
  max_asset_key_length, max_job_input_keys, max_job_payload_bytes, max_job_payload_depth,
  min_job_priority, max_job_priority, min_job_attempt_budget, max_job_attempt_budget,
  min_execution_deadline_seconds, max_execution_deadline_seconds, max_capability_id_length,
  max_job_requirement_entries, max_requirement_value_length, max_requirement_vram_mb, finite, Value,
  int, float, str, list, dict, Items, nil, cons, Fields, end, field, text_items, JobRequirements,
  JobSubmission,
}
use outbound_gpu_worker_pool.Stdlib.{Stdlib}
use outbound_gpu_worker_pool.Json.{dumps}
use outbound_gpu_worker_pool.Regex.{fullmatch, plus, char, line_end, Regex, class, seq, star}

abbrev pub lower_digit_ : List (ℕ × ℕ)
lower_digit_ = (b'a', b'z') ∷ (b'0', b'9') ∷ (b'_', b'_') ∷ []

-- `[a-z][a-z0-9_]*(?:\.[a-z0-9_-]+)*\.v[0-9]+`
abbrev pub capability_id_pattern : Regex
capability_id_pattern = seq (class ((b'a', b'z') ∷ [])) (
    seq (star (class lower_digit_)) (
      seq (star (seq (char b'.') (plus (class ((b'-', b'-') ∷ lower_digit_)))))
        (seq (char b'.') (seq (char b'v') (plus (class ((b'0', b'9') ∷ [])))))))

-- `CAPABILITY_ID_PATTERN.match`: the pattern ends in `$`.
unfoldable pub capability_id_matches : String → Bool
unfolding fullmatch
capability_id_matches s = fullmatch (seq capability_id_pattern line_end) (codes s)

unfoldable pub validate_capability_id : String → Result String
validate_capability_id s =
    if is_empty s || ltb max_capability_id_length (len s) || not (capability_id_matches s)
    then err (value_error "capability_id must look like namespace.name.v1")
    else ok s

-- The stack walk of `_validate_json_tree`: the top of the stack stands first. A payload is a tree
-- here, so no container is met twice. `none` means that the fuel ran out.
abbrev pub push_items : Items → ℕ → List (Value × ℕ) → List (Value × ℕ)
push_items nil d stack = stack
push_items (cons x xs) d stack = push_items xs d ((x, d) ∷ stack)

abbrev pub push_fields : Fields → ℕ → List (Value × ℕ) → List (Value × ℕ)
push_fields end d stack = stack
push_fields (field k v fs) d stack = push_fields fs d ((v, d) ∷ stack)

-- What one value pushes on the stack, or the error that it raises.
abbrev pub visit : Value → ℕ → List (Value × ℕ) → Result (List (Value × ℕ))
visit (dict fs) d stack = ok (push_fields fs (d + 1) stack)
visit (list xs) d stack = ok (push_items xs (d + 1) stack)
visit (float (finite n)) d stack = ok stack
visit (float _) d stack = err (value_error "job payload numbers must be finite")
visit _ d stack = ok stack

abbrev pub too_deep : Error
too_deep = value_error "job payload exceeds depth 8"

unfoldable pub walk_tree : ℕ → List (Value × ℕ) → Option (Result (Unit {0}))
walk_tree f [] = some (ok tt)
walk_tree zero (v ∷ stack) = none
walk_tree (suc f) ((v, d) ∷ stack) =
    if ltb max_job_payload_depth d
    then some (err too_deep)
    else elim (visit v d stack) [ err e ↦ some (err e) | ok next ↦ walk_tree f next ]

-- The number of values in a tree, which is the number of rounds.
abbrev mutual
  pub size : Value → ℕ
  size (list xs) = suc (size_items xs)
  size (dict fs) = suc (size_fields fs)
  size _ = 1

  pub size_items : Items → ℕ
  size_items nil = 0
  size_items (cons x xs) = size x + size_items xs

  pub size_fields : Fields → ℕ
  size_fields end = 0
  size_fields (field k v fs) = size v + size_fields fs

abbrev finished : Option (Result (Unit {0})) → Result (Unit {0})
finished none = err (value_error "out of fuel")
finished (some r) = r

unfoldable pub validate_json_tree : Value → Result (Unit {0})
unfolding walk_tree
validate_json_tree root = finished (walk_tree (size root) ((root, 1) ∷ []))

module _ (lib : Stdlib) where
  unfoldable pub validate_job_payload : Fields → Result (Unit {0})
  validate_job_payload payload = do
    validate_json_tree (dict payload)
    encoded ← dumps lib (dict payload)
    raise_if (ltb max_job_payload_bytes (length encoded))
        (value_error "job payload exceeds 16384 bytes")

abbrev bad_length : ℕ → String → Bool
bad_length maximum value = is_empty value || ltb maximum (len value)

abbrev check_texts : String → List String → Result (Unit {0})
check_texts label values = do
  raise_if (ltb max_job_requirement_entries (length values))
      (value_error (concat label " must hold at most 16 entries"))
  raise_if (any (bad_length max_requirement_value_length) values)
      (value_error (concat label " entries must contain 1 to 128 characters"))

abbrev out_of_range : ℕ → ℕ → ℤ → Bool
out_of_range minimum maximum value = not (int_le (pos minimum) value && int_le value (pos maximum))

abbrev bad_vram : Option ℤ → Bool
bad_vram none = false
bad_vram (some n) = out_of_range 0 max_requirement_vram_mb n

unfoldable pub validate_job_requirements : JobRequirements → Result (Unit {0})
validate_job_requirements r = do
  raise_if (bad_vram r.min_vram_mb) (value_error "min_vram_mb must be between 0 and 1000000")
  check_texts "gpu_models" r.gpu_models
  check_texts "labels" r.labels
  check_texts "worker_ids" r.worker_ids
  check_texts "runtime_versions" (keys r.runtime_versions ++ values r.runtime_versions)

abbrev bad_text : ℕ → Option String → Bool
bad_text maximum none = false
bad_text maximum (some value) = bad_length maximum value

module _ (lib : Stdlib) where
  unfoldable pub validate_job_submission : JobSubmission → Result (Unit {0})
  validate_job_submission s = do
    raise_if (bad_text max_job_id_length (some s.job_id))
        (value_error "job_id must contain 1 to 255 characters")
    raise_if (bad_text max_job_id_length (some s.idempotency_key))
        (value_error "idempotency_key must contain 1 to 255 characters")
    raise_if (bad_text max_job_id_length s.tenant_id)
        (value_error "tenant_id must contain 1 to 255 characters")
    raise_if (bad_text max_asset_key_length (some s.output_key))
        (value_error "output_key must contain 1 to 1024 characters")
    raise_if (ltb max_job_input_keys (length s.input_keys))
        (value_error "input_keys must hold at most 16 entries")
    raise_if (any (bad_length max_asset_key_length) s.input_keys)
        (value_error "input_keys entries must contain 1 to 1024 characters")
    raise_if (not (distinct s.input_keys)) (value_error "input_keys must not repeat a key")
    raise_if (int_lt s.contract_version (pos 1)) (value_error "contract_version must be positive")
    _ ← validate_capability_id s.capability_id
    raise_if (out_of_range min_job_priority max_job_priority s.priority)
        (value_error "priority must be between 0 and 1000")
    raise_if (out_of_range min_job_attempt_budget max_job_attempt_budget s.attempt_budget)
        (value_error "attempt_budget must be between 1 and 20")
    raise_if
        (out_of_range min_execution_deadline_seconds max_execution_deadline_seconds
          s.execution_deadline_seconds)
        (value_error "execution_deadline_seconds must be between 60 and 7200")
    validate_job_requirements s.requirements
    validate_job_payload lib s.payload

  -- The canonical form of the five fields that a worker attests, or the error of `json.dumps`.
  unfoldable pub job_request_digest : JobSubmission → Result String
  job_request_digest s = do
    canonical ← dumps lib (
        dict (
          field "capability_id" (str s.capability_id) (
            field "contract_version" (int s.contract_version) (
              field "input_keys" (list (text_items s.input_keys))
                (field "output_key" (str s.output_key) (field "payload" (dict s.payload) end))))))
    ok (lib.sha256_hex canonical)
