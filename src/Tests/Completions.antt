-- ===== src/Tests/Completions.antt =====
-- The agent and the service together at a concrete pool: a job is submitted, leased and completed.
use outbound_gpu_worker_pool.Base.{
  ℕ, zero, suc, String, ◌≡◌, refl, sym, ap, inl, none, some, List, [], ◌∷◌, pos, get, put,
}
use outbound_gpu_worker_pool.Contracts.{Result, ok, err, null, int, end, field, LeaseGrant}
use outbound_gpu_worker_pool.Stdlib.{Stdlib}
use outbound_gpu_worker_pool.Plugins.Echo.{echo_plugin}
use outbound_gpu_worker_pool.Service.{Settings, Pool}
use outbound_gpu_worker_pool.Service.History.{
  serve_all, serve_all-PoolIsValid, Request, to_submit, to_enroll, to_report, to_lease, PoolIsValid,
}
use outbound_gpu_worker_pool.Routes.{status_of}
use outbound_gpu_worker_pool.Routes.Handlers.{complete_route}
use outbound_gpu_worker_pool.Agent.{
  served_capabilities, completed_outcome, Call, complete_call, json_body, HttpReply, Host,
}
use outbound_gpu_worker_pool.Agent.Completion.{IsAccepted, serve-Accepted}
use outbound_gpu_worker_pool.Tests.Samples.{python, upscale}
use outbound_gpu_worker_pool.Tests.Stores.{no_store-StoreIsValid}
use outbound_gpu_worker_pool.Tests.Pools.{caller, report, storage, settings, empty_pool}
use outbound_gpu_worker_pool.Tests.Services.{no_workers-RegistryIsValid}
use outbound_gpu_worker_pool.Tests.Agents.{echo_grant, answer_of, host, started, peer_caller}
use outbound_gpu_worker_pool.Routes.Manifests.{CompleteRequest}
use outbound_gpu_worker_pool.Json.{dump_fields}
use outbound_gpu_worker_pool.Validation.{
  capability_id_matches, validate_capability_id, validate_json_tree, validate_job_requirements,
  validate_job_submission, job_request_digest,
}
use outbound_gpu_worker_pool.JobStore.{new_record, submit, get_job}
use outbound_gpu_worker_pool.JobStore.Leasing.{
  satisfies_requirements, earliest, leased_record, is_candidate, lease,
}
use outbound_gpu_worker_pool.JobStore.Settling.{complete, expire_exhausted}
use outbound_gpu_worker_pool.Registry.{upsert}
use outbound_gpu_worker_pool.Assets.{
  create_read_url, create_output_upload_url, describe, read_limited,
}
use outbound_gpu_worker_pool.RateLimiter.{allow}
use outbound_gpu_worker_pool.Enrollment.{is_worker_id, enrollments_from_json}
use outbound_gpu_worker_pool.Service.Qualification.{unqualified_reason, pinned_recipe}
use outbound_gpu_worker_pool.Service.Workers.{enroll_worker, register_heartbeat}
use outbound_gpu_worker_pool.Service.Leases.{lease_job}
use outbound_gpu_worker_pool.Service.Verification.{verify_output}
use outbound_gpu_worker_pool.Service.Views.{submit_job}
use outbound_gpu_worker_pool.Agent.Inputs.{http_transfer}
use outbound_gpu_worker_pool.Agent.Jobs.{serve}

-- A digest of the form that the routes ask for.
abbrev hex_digest : String
hex_digest = "0123456789abcdef0123456789abcdef0123456789abcdef0123456789abcdef"

abbrev hex_python : Stdlib
hex_python = record python { sha256_hex = λ b. hex_digest }

-- What the echo plugin writes has 112 bytes.
abbrev bytes : ℕ → List ℕ
bytes zero = []
bytes (suc n) = 0 ∷ bytes n

abbrev echo_settings : Settings
echo_settings = record settings { lib = hex_python }

abbrev echo_requests : List Request
echo_requests =
    to_submit (record upscale {
      capability_id = "test.deterministic.echo.v1";
      payload = field "seed" (int (pos 7)) end;
    })
    ∷ to_enroll "worker-1"
        (record { identity_subject = "static:worker-1"; tenant_id = some "acme" })
    ∷ to_report caller (record report {
      capabilities =
          record {
            capability_id = "test.deterministic.echo.v1";
            plugin_id = "deterministic-echo";
            plugin_version = "1";
            concurrency = 1;
          }
          ∷ [];
    })
    ∷ to_lease caller ("test.deterministic.echo.v1" ∷ []) none
    ∷ []

abbrev stocked_pool : Pool
stocked_pool = record empty_pool {
  assets = record storage { assets = ("in/a.png", 1 ∷ 2 ∷ []) ∷ ("out/a.png", bytes 112) ∷ [] };
}

unfoldable echo_pool : Pool
echo_pool = serve_all echo_settings echo_requests stocked_pool

echo_pool-PoolIsValid : PoolIsValid echo_pool
unfolding echo_pool get
echo_pool-PoolIsValid =
    serve_all-PoolIsValid echo_settings echo_requests stocked_pool (inl refl, (tt, (tt, (tt, tt))))
      (record { jobs = no_store-StoreIsValid; registry = no_workers-RegistryIsValid })

-- The coordinator behind the agent's completions.
abbrev coordinator_status : String → CompleteRequest → ℕ
coordinator_status job_id q =
    status_of (complete_route echo_settings peer_caller job_id q echo_pool).0

abbrev coordinator_answer : Call → HttpReply
coordinator_answer (complete_call job_id q) = record {
  status_code = coordinator_status job_id q;
  body = json_body null;
}
coordinator_answer c = answer_of c

abbrev echo_host : Host
echo_host = record host {
  lib = hex_python;
  plugins = echo_plugin hex_python ∷ [];
  http = λ n c. ok (coordinator_answer c);
}

abbrev hex_grant : LeaseGrant
hex_grant = record echo_grant { request_digest = hex_digest }

status_from :
    {r s : HttpReply} → ◌≡◌ {A = Result HttpReply} (ok r) (ok s) → s.status_code ≡ r.status_code
status_from {r = r} e = ap status (sym e)
  where
    status : Result HttpReply → ℕ
    status (ok x) = x.status_code
    status (err e) = r.status_code

accepts : (serve echo_host hex_grant started).0 ≡ ok completed_outcome
unfolding outbound_gpu_worker_pool.Service.History.serve serve_all echo_pool get put dump_fields
    capability_id_matches validate_capability_id validate_json_tree validate_job_requirements
    validate_job_submission job_request_digest new_record submit get_job satisfies_requirements
    earliest leased_record is_candidate lease complete expire_exhausted upsert create_read_url
    create_output_upload_url describe read_limited allow is_worker_id enrollments_from_json
    unqualified_reason pinned_recipe enroll_worker register_heartbeat lease_job verify_output
    submit_job echo_plugin status_of complete_route served_capabilities http_transfer serve
accepts = refl

serve-Accepted_example : IsAccepted echo_settings peer_caller echo_host hex_grant (λ n. echo_pool)
serve-Accepted_example =
    serve-Accepted echo_settings peer_caller echo_host hex_grant (λ n. echo_pool) started
      (λ n. echo_pool-PoolIsValid) (λ n q reply answered. status_from answered) accepts
