-- ===== src/Plugins/Echo.antt =====
-- `DeterministicEchoPlugin` of plugins.py.
use outbound_gpu_worker_pool.Base.{
  ℕ, ◌+◌, ◌/◌, ◌%◌, String, Bool, true, false, not, ◌||◌, none, some, List, [], ◌∷◌, ◌++◌, ltb,
  if◌then◌else◌, codes, len, ℤ_eq, ℤ, pos, ◌==◌, ℕ_eq, String_eq, Option_eq, List_eq, Dict, put,
}
use outbound_gpu_worker_pool.Contracts.{
  ◌>>=◌, ◌>>◌, raise_if, Error, plugin_request_rejected, foreign_error, Result, ok, err,
  deterministic_echo_capability, field_get, Value, bool, int, str, dict, Fields, end, field,
  CapabilitySchema, LeaseGrant,
}
use outbound_gpu_worker_pool.Stdlib.{Stdlib}
use outbound_gpu_worker_pool.Json.{int_text, codes_lt}
use outbound_gpu_worker_pool.Plugins.{
  Files, read_file, CapabilityManifest, ValidatedRequest, ExecutionContext, PluginOutput, Execution,
  Plugin,
}

abbrev deterministic_echo_plugin_id : String
deterministic_echo_plugin_id = "deterministic-echo"

abbrev deterministic_echo_plugin_version : String
deterministic_echo_plugin_version = "1"

abbrev deterministic_echo_contract_version : ℤ
deterministic_echo_contract_version = pos 1

abbrev deterministic_echo_output_name : String
deterministic_echo_output_name = "output.txt"

abbrev deterministic_echo_content_type : String
deterministic_echo_content_type = "text/plain"

-- The bytes of "deterministic-echo/v1\n"
abbrev pub deterministic_echo_header : List ℕ
deterministic_echo_header = codes "deterministic-echo/v1" ++ 10 ∷ []

abbrev default_echo_label : String
default_echo_label = "echo"

abbrev pub max_echo_label_length : ℕ
max_echo_label_length = 64

abbrev deterministic_echo_schema : CapabilitySchema
deterministic_echo_schema = record {
  capability_id = deterministic_echo_capability;
  contract_version = deterministic_echo_contract_version;
  input_schema = field "type" (str "object") (
      field "additionalProperties" (bool false) (
        field "properties"
          (dict (
            field "seed" (dict (field "type" (str "integer") (field "minimum" (int (pos 0)) end))) (
              field "label"
                (dict (field "type" (str "string") (field "maxLength" (int (pos 64)) end))) end)))
          end));
}

abbrev echo_capabilities : CapabilityManifest
echo_capabilities = record {
  plugin_id = deterministic_echo_plugin_id;
  plugin_version = deterministic_echo_plugin_version;
  capabilities =
      record {
        capability_id = deterministic_echo_capability;
        plugin_id = deterministic_echo_plugin_id;
        plugin_version = deterministic_echo_plugin_version;
        concurrency = 1;
      }
      ∷ [];
  schemas = deterministic_echo_schema ∷ [];
}

-- Some key of the payload is neither "seed" nor "label".
abbrev carries_unknown : Fields → Bool
carries_unknown end = false
carries_unknown (field k v fs) = not (k == "seed" || k == "label") || carries_unknown fs

-- `payload.get(k, default)`
abbrev field_or : String → Value → Fields → Value
field_or k v fs = elim (field_get k fs) [ none ↦ v | some w ↦ w ]

abbrev bad_seed : Error
bad_seed = plugin_request_rejected "seed must be a non-negative integer"

abbrev bad_label : Error
bad_label = plugin_request_rejected "label must be a string of at most 64 characters"

-- A `bool` is an `int` in Python, and refused.
unfoldable pub echo_seed : Value → Result ℤ
echo_seed (int (pos n)) = ok (pos n)
echo_seed _ = err bad_seed

unfoldable pub echo_label : Value → Result String
echo_label (str s) = if ltb max_echo_label_length (len s) then err bad_label else ok s
echo_label _ = err bad_label

unfoldable pub echo_request : LeaseGrant → ℤ → String → ValidatedRequest
echo_request lease seed label = record {
  capability_id = lease.capability_id;
  contract_version = lease.contract_version;
  inputs = field "seed" (int seed) (field "label" (str label) end);
  seed = some seed;
}

unfoldable pub echo_validate : LeaseGrant → Result ValidatedRequest
unfolding echo_seed echo_label echo_request
echo_validate lease = do
  raise_if (not (lease.capability_id == deterministic_echo_capability))
      (plugin_request_rejected "unsupported capability")
  raise_if (not (lease.contract_version == deterministic_echo_contract_version))
      (plugin_request_rejected "unsupported contract version")
  raise_if (carries_unknown lease.payload)
      (plugin_request_rejected "payload carries unsupported keys")
  seed ← echo_seed (field_or "seed" (int (pos 0)) lease.payload)
  label ← echo_label (field_or "label" (str default_echo_label) lease.payload)
  ok (echo_request lease seed label)

-- `s.encode()`: UTF-8 of one code point.
abbrev utf8_point : ℕ → List ℕ
utf8_point c =
    if ltb c 128
    then c ∷ []
    else if ltb c 2048
    then (192 + c / 64) ∷ (128 + c % 64) ∷ []
    else if ltb c 65536
    then (224 + c / 4096) ∷ (128 + c / 64 % 64) ∷ (128 + c % 64) ∷ []
    else (240 + c / 262144) ∷ (128 + c / 4096 % 64) ∷ (128 + c / 64 % 64) ∷ (128 + c % 64) ∷ []

unfoldable pub encode : List ℕ → List ℕ
encode [] = []
encode (c ∷ cs) = utf8_point c ++ encode cs

-- `sorted(d.items())` for distinct keys.
unfoldable pub insert_path : String × String → Dict String → Dict String
insert_path (k, v) [] = (k, v) ∷ []
insert_path (k, v) ((j, w) ∷ d) =
    if codes_lt (codes j) (codes k) then (j, w) ∷ insert_path (k, v) d else (k, v) ∷ (j, w) ∷ d

unfoldable pub sort_paths : Dict String → Dict String
unfolding insert_path
sort_paths [] = []
sort_paths (e ∷ d) = insert_path e (sort_paths d)

unfoldable pub joined_files : Dict String → Files → Result (List ℕ)
unfolding read_file
joined_files [] files = ok []
joined_files ((key, path) ∷ d) files = do
  b ← read_file path files
  bs ← joined_files d files
  ok (b ++ bs)

module _ (lib : Stdlib) where
  -- `f"{v}"`
  abbrev pub shown : Value → List ℕ
  shown (str s) = codes s
  shown (int n) = int_text n
  shown v = codes (lib.render v)

  -- `inputs[k]`
  abbrev pub input : String → Fields → Result (List ℕ)
  unfolding field_get
  input k fs = elim (field_get k fs) [
    | none ↦ err (foreign_error "KeyError")
    | some v ↦ ok (shown v)
  ]

  abbrev pub echo_body : List ℕ → List ℕ → String → List ℕ
  echo_body label seed digest =
      codes "label="
      ++ label
      ++ 10 ∷ codes "seed="
      ++ seed
      ++ 10 ∷ codes "sha256="
      ++ codes digest
      ++ 10 ∷ []

  unfoldable pub echo_bytes : ExecutionContext → ValidatedRequest → Files → Result (List ℕ)
  unfolding sort_paths joined_files
  echo_bytes context request files = do
    joined ← joined_files (sort_paths context.input_paths) files
    label ← input "label" request.inputs
    seed ← input "seed" request.inputs
    ok (deterministic_echo_header ++ encode (echo_body label seed (lib.sha256_hex joined)))

  abbrev pub echo_output : ValidatedRequest → PluginOutput
  echo_output request = record {
    path = deterministic_echo_output_name;
    content_type = deterministic_echo_content_type;
    model_id = deterministic_echo_plugin_id;
    model_version = deterministic_echo_plugin_version;
    seed = request.seed;
    diagnostics = end;
  }

  unfoldable pub echo_execute : ExecutionContext → ValidatedRequest → Files → Execution
  unfolding echo_bytes encode
  echo_execute context request files = elim (echo_bytes context request files) [
    | err e ↦ record { output = err e; files = files; reports = [] }
    | ok b ↦ record {
      output = ok (echo_output request);
      files = put deterministic_echo_output_name b files;
      reports = 100 ∷ [];
    }
  ]

  unfoldable pub echo_plugin : Plugin
  unfolding echo_execute echo_validate
  echo_plugin = record {
    capabilities = echo_capabilities;
    validate = echo_validate;
    execute = echo_execute;
    cancel = λ _. false;
    health = record { healthy = true; detail = "" };
  }
