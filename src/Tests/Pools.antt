-- ===== src/Tests/Pools.antt =====
-- A pool with one worker, one job, and its input and output.
use outbound_gpu_worker_pool.Base.{◌+◌, false, none, some, [], ◌∷◌, pos}
use outbound_gpu_worker_pool.Contracts.{
  ok, int, end, field, JobRecord, revoked, local_cost, WorkerRegistration, WorkerRecord,
  WorkerIdentity, LeaseGrant, OutputManifest,
}
use outbound_gpu_worker_pool.JobStore.{JobStore}
use outbound_gpu_worker_pool.JobStore.Leasing.{leased_record}
use outbound_gpu_worker_pool.Registry.{registered_record, with_status, WorkerRegistry}
use outbound_gpu_worker_pool.Assets.{AssetStore}
use outbound_gpu_worker_pool.RateLimiter.{RateLimiter}
use outbound_gpu_worker_pool.Service.{Settings, Pool}
use outbound_gpu_worker_pool.Tests.Samples.{python, worker, no_store, waiting, one_waiting}

abbrev pub caller : WorkerIdentity
caller = record { worker_id = "worker-1"; subject = "static:worker-1"; method = "static" }

abbrev pub report : WorkerRegistration
report = record {
  worker_id = "worker-1";
  capabilities =
      (record {
        capability_id = "image.upscale.v1";
        plugin_id = "upscaler";
        plugin_version = "1";
        concurrency = 1;
      })
      ∷ [];
  tenant_id = some "acme";
  gpu_model = none;
  vram_mb = some 24000;
  runtime_versions = ("cuda", "12.4") ∷ [];
  cost_class = local_cost;
  labels = "linux" ∷ [];
  active_leases = 0;
  is_draining = false;
  gpus = [];
  busy_job_id = none;
}

unfoldable pub worker_row : WorkerRecord
unfolding registered_record
worker_row = registered_record report "static:worker-1" 500 none

unfoldable pub one_worker : WorkerRegistry
unfolding worker_row
one_worker = record { workers = ("worker-1", worker_row) ∷ [] }

unfoldable pub revoked_worker : WorkerRegistry
unfolding worker_row with_status
revoked_worker = record { workers = ("worker-1", with_status revoked 600 worker_row) ∷ [] }

abbrev pub storage : AssetStore
storage = record {
  assets = ("in/a.png", 1 ∷ 2 ∷ []) ∷ ("out/a.png", 3 ∷ 4 ∷ 5 ∷ []) ∷ [];
  content_types = [];
  publish_count = 2;
  allowed_read_prefixes = "in/" ∷ "out/" ∷ [];
  allowed_output_prefixes = "out/" ∷ [];
}

abbrev pub open_limiter : RateLimiter
open_limiter = record { limit = 2; max_keys = 2; buckets = [] }

abbrev pub settings : Settings
settings = record {
  lib = python;
  profiles = record {
    refused_profiles = [];
    refused_capability_ids = [];
    refused_recipe_versions = [];
    attested_inputs = λ r c. [];
    input_defaults = λ r. end;
  };
  clock = λ n. 1000000 + n;
  new_token = λ n. "token-1";
  authenticator = λ a. ok caller;
  enrollments = [];
  default_lease_seconds = 60;
  max_verify_bytes = 1024;
  grant_ttl_seconds = 900;
  max_auth_concurrency = 4;
}

abbrev pub pool_with : JobStore → Pool
pool_with jobs = record {
  jobs = jobs;
  registry = one_worker;
  audit = record { events = [] };
  assets = storage;
  worker_limiter = open_limiter;
  global_limiter = open_limiter;
  pre_auth_limiter = open_limiter;
  source_limiter = open_limiter;
  auth_audit_limiter = open_limiter;
  active_auth = 0;
  readings = 0;
  draws = 0;
}

unfoldable pub idle_pool : Pool
unfolding one_waiting one_worker
idle_pool = pool_with one_waiting

unfoldable pub leased_upscale : JobRecord
unfolding waiting leased_record
leased_upscale = leased_record worker "token-1" 1000000 waiting

unfoldable pub busy_pool : Pool
unfolding leased_upscale one_worker
busy_pool = pool_with (record { records = ("job-1", leased_upscale) ∷ [] })

abbrev pub manifest : OutputManifest
manifest = record {
  output_key = "out/a.png";
  content_type = "image/png";
  byte_length = 3;
  sha256 = "digest";
  idempotency_key = "key-1";
  request_digest = "digest";
  plugin_id = "upscaler";
  plugin_version = "1";
  model_id = "model";
  model_version = "1";
  publication_mode = "immutable_create_once";
  seed = none;
  diagnostics = end;
}

abbrev pub grant : LeaseGrant
grant = record {
  job_id = "job-1";
  claim_token = "token-1";
  lease_until = 61000002;
  execution_deadline_seconds = pos 600;
  capability_id = "image.upscale.v1";
  contract_version = pos 1;
  request_digest = "digest";
  idempotency_key = "key-1";
  input_keys = "in/a.png" ∷ [];
  output_key = "out/a.png";
  payload = field "factor" (int (pos 2)) end;
  input_grants =
      (record {
        key = "in/a.png";
        url = "memory://read/in/a.png";
        method = "GET";
        expires_at = 901000002;
        content_type = none;
      })
      ∷ [];
  output_grant = record {
    key = "out/a.png";
    url = "memory://upload/out/a.png";
    method = "PUT";
    expires_at = 901000002;
    content_type = some "application/octet-stream";
  };
  tenant_id = some "acme";
}

abbrev pub empty_pool : Pool
empty_pool = record (pool_with no_store) { registry = record { workers = [] } }
