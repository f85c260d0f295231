-- ===== src/Contracts/Limits.antt =====
-- The constants of contracts.py.
use outbound_gpu_worker_pool.Base.{ℕ, ◌*◌, String, List, [], ◌∷◌}

abbrev pub max_job_id_length : ℕ
max_job_id_length = 255

abbrev pub max_asset_key_length : ℕ
max_asset_key_length = 1024

abbrev pub max_job_input_keys : ℕ
max_job_input_keys = 16

abbrev pub max_job_payload_bytes : ℕ
max_job_payload_bytes = 16384

abbrev pub max_job_payload_depth : ℕ
max_job_payload_depth = 8

abbrev pub min_job_priority : ℕ
min_job_priority = 0

abbrev pub max_job_priority : ℕ
max_job_priority = 1000

abbrev pub min_job_attempt_budget : ℕ
min_job_attempt_budget = 1

abbrev pub max_job_attempt_budget : ℕ
max_job_attempt_budget = 20

abbrev pub min_execution_deadline_seconds : ℕ
min_execution_deadline_seconds = 60

abbrev pub max_execution_deadline_seconds : ℕ
max_execution_deadline_seconds = 7200

abbrev pub max_capability_id_length : ℕ
max_capability_id_length = 128

abbrev pub max_tenant_id_length : ℕ
max_tenant_id_length = 128

abbrev pub max_job_requirement_entries : ℕ
max_job_requirement_entries = 16

abbrev pub max_requirement_value_length : ℕ
max_requirement_value_length = 128

abbrev pub max_requirement_vram_mb : ℕ
max_requirement_vram_mb = 1_000_000

abbrev pub max_audit_reason_length : ℕ
max_audit_reason_length = 300

abbrev pub pool_worker_online_window_seconds : ℕ
pool_worker_online_window_seconds = 90

abbrev pub pool_worker_visibility_window_seconds : ℕ
pool_worker_visibility_window_seconds = 86400

abbrev pub max_worker_id_length : ℕ
max_worker_id_length = 128

abbrev pub max_worker_gpus : ℕ
max_worker_gpus = 16

abbrev pub max_gpu_name_length : ℕ
max_gpu_name_length = 128

abbrev pub deterministic_echo_capability : String
deterministic_echo_capability = "test.deterministic.echo.v1"

abbrev pub attempt_budget_exhausted : String
attempt_budget_exhausted = "attempt budget exhausted"

abbrev pub publication_mode_immutable_create_once : String
publication_mode_immutable_create_once = "immutable_create_once"

abbrev pub default_read_prefixes : List String
default_read_prefixes = "inputs/" ∷ "outputs/" ∷ []

abbrev pub default_output_prefixes : List String
default_output_prefixes = "outputs/" ∷ []

-- A `datetime` or a `timedelta` in microseconds.
abbrev pub seconds : ℕ → ℕ
seconds n = n * 1000000
