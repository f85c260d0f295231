-- ===== src/Tests/Agents.antt =====
-- The theorems on the agent, its sampler and the routes at concrete states.
use outbound_gpu_worker_pool.Base.{
  ℕ, zero, suc, ◌+◌, ◌≤◌, String, ◌≡◌, refl, ap, true, false, none, some, List, [], ◌∷◌, ◌++◌,
  arith, eq_iff, leb, length, All, len, concat, split, pos, Dict, get, put, Entries-get,
}
use outbound_gpu_worker_pool.Contracts.{
  foreign_error, ok, field_get, null, int, str, list, dict, Items, nil, cons, Fields, end, field,
  text_items, AssetGrant, LeaseGrant,
}
use outbound_gpu_worker_pool.Registry.{registered_record}
use outbound_gpu_worker_pool.Enrollment.{new_enrollment}
use outbound_gpu_worker_pool.Plugins.Echo.{
  echo_seed, echo_label, echo_request, echo_validate, encode, insert_path, sort_paths, joined_files,
  echo_bytes, echo_execute, echo_plugin,
}
use outbound_gpu_worker_pool.Routes.Requests.{is_ok}
use outbound_gpu_worker_pool.Routes.Responses.{lease_response, AssetGrantResponse, LeaseResponse}
use outbound_gpu_worker_pool.Routes.Handlers.{Caller}
use outbound_gpu_worker_pool.Routes.Raised.{HoldsEnrollments}
use outbound_gpu_worker_pool.Routes.Answers.{IsAnswered, job_routes-Answered, beats_request}
use outbound_gpu_worker_pool.Sampler.{new_sampler, finished, timed_out, run_raised, Machine}
use outbound_gpu_worker_pool.Sampler.Readings.{AnswersAll, samples, samples-Returned}
use outbound_gpu_worker_pool.Agent.{
  served_plugins, served_capabilities, completed_outcome, Call, lease_call, json_body, HttpReply,
  Host, AgentState,
}
use outbound_gpu_worker_pool.Agent.Calls.{status_result, sample_gpus, heartbeat}
use outbound_gpu_worker_pool.Agent.Inputs.{
  write_chunks, http_download, http_upload, http_transfer, digest_loop, digest_file, base_name,
  destination, names_file, remove, files_of, download_grants, download_inputs, Client,
}
use outbound_gpu_worker_pool.Agent.Jobs.{
  job_heartbeats, execute, handled, cleaned, executed, with_inputs, run_job, serve_validated, serve,
}
use outbound_gpu_worker_pool.Agent.Loop.{run_forever}
use outbound_gpu_worker_pool.Agent.Outcomes.{serve-Settled}
use outbound_gpu_worker_pool.Agent.Ending.{HasFinished, run_forever-Finished}
use outbound_gpu_worker_pool.Agent.Tidy.{LeavesClean, run_forever-Clean}
use outbound_gpu_worker_pool.Agent.Leases.{
  text_or_null, grant_items, ReadsDates, lease_grant-lease_response, Encoding, WritesGrants,
  WritesLeases,
}
use outbound_gpu_worker_pool.Agent.Downloads.{IsBounded, http_download-Bounded}
use outbound_gpu_worker_pool.Agent.Delivery.{IsDelivered, download_inputs-Delivered}
use outbound_gpu_worker_pool.Tests.Samples.{python}
use outbound_gpu_worker_pool.Tests.Pools.{worker_row, one_worker, settings, busy_pool, grant}
use outbound_gpu_worker_pool.Plugins.{read_file}
use outbound_gpu_worker_pool.Agent.Publishing.{published, publish}
use outbound_gpu_worker_pool.Agent.Settled.{Settled}
use outbound_gpu_worker_pool.Agent.Grants.{lease_grant}

abbrev gpu_machine : Machine
gpu_machine = record {
  env = [];
  which_nvidia_smi = some "/usr/bin/nvidia-smi";
  has_wsl_binary = false;
  run = λ binary. finished "0,RTX 4090,5,[N/A],24564";
  timeout_text = "3.0";
}

abbrev broken_machine : Machine
broken_machine = record gpu_machine { run = λ binary. timed_out }

-- A machine whose output is no text.
abbrev garbled_machine : Machine
garbled_machine = record gpu_machine {
  run = λ binary. run_raised (foreign_error "UnicodeDecodeError");
}

abbrev machines : List Machine
machines = gpu_machine ∷ broken_machine ∷ garbled_machine ∷ broken_machine ∷ []

samples-Returned_example :
    AnswersAll machines (samples python machines (new_sampler none)).0
    × (length (samples python machines (new_sampler none)).1.warnings ≤ 1)
samples-Returned_example = samples-Returned python machines (new_sampler none) refl

-- An input whose key ends like another's.
abbrev second_input : AssetGrant
second_input = record {
  key = "in/b.png";
  url = "memory://read/in/b.png";
  method = "GET";
  expires_at = 901000002;
  content_type = none;
}

abbrev pub echo_grant : LeaseGrant
echo_grant = record grant {
  capability_id = "test.deterministic.echo.v1";
  payload = field "seed" (int (pos 7)) end;
  input_grants = grant.input_grants ++ second_input ∷ [];
}

-- A text of `t` characters.
abbrev marks : ℕ → String
marks zero = ""
marks (suc t) = concat "I" (marks t)

abbrev encoded_grant : AssetGrantResponse → Fields
encoded_grant g = field "key" (str g.key) (
    field "url" (str g.url) (
      field "method" (str g.method) (
        field "content_type" (text_or_null g.content_type)
          (field "expires_at" (str (marks g.expires_at)) end))))

abbrev encoded_grants : List AssetGrantResponse → Items
encoded_grants [] = nil
encoded_grants (g ∷ gs) = cons (dict (encoded_grant g)) (encoded_grants gs)

abbrev encoded_lease : LeaseResponse → Fields
encoded_lease r = field "job_id" (str r.job_id) (
    field "claim_token" (str r.claim_token) (
      field "lease_until" (str (marks r.lease_until)) (
        field "execution_deadline_seconds" (int r.execution_deadline_seconds) (
          field "capability_id" (str r.capability_id) (
            field "contract_version" (int r.contract_version) (
              field "request_digest" (str r.request_digest) (
                field "idempotency_key" (str r.idempotency_key) (
                  field "input_keys" (list (text_items r.input_keys)) (
                    field "output_key" (str r.output_key) (
                      field "payload" (dict r.payload) (
                        field "input_grants" (list (encoded_grants r.input_grants)) (
                          field "output_grant" (dict (encoded_grant r.output_grant)) end))))))))))))

abbrev python_encoding : Encoding
python_encoding = record { grant_fields = encoded_grant; lease_fields = encoded_lease; iso = marks }

python_encoding-WritesGrants : WritesGrants python_encoding
unfolding field_get
python_encoding-WritesGrants = record {
  key = λ g. refl;
  url = λ g. refl;
  method = λ g. refl;
  expires_at = λ g. refl;
  content_type = λ g. refl;
}

encoded_grants-grant_items :
    (gs : List AssetGrantResponse) → encoded_grants gs ≡ grant_items python_encoding gs
encoded_grants-grant_items [] = refl
encoded_grants-grant_items (g ∷ gs) =
    ap (cons (dict (encoded_grant g))) (encoded_grants-grant_items gs)

python_encoding-WritesLeases : WritesLeases python_encoding
unfolding field_get
python_encoding-WritesLeases = record {
  job_id = λ r. refl;
  claim_token = λ r. refl;
  lease_until = λ r. refl;
  execution_deadline_seconds = λ r. refl;
  capability_id = λ r. refl;
  contract_version = λ r. refl;
  request_digest = λ r. refl;
  idempotency_key = λ r. refl;
  input_keys = λ r. refl;
  output_key = λ r. refl;
  payload = λ r. refl;
  input_grants = λ r. ap (λ xs. some (list xs)) (encoded_grants-grant_items r.input_grants);
  output_grant = λ r. refl;
}

len-marks : (t : ℕ) → len (marks t) ≡ t
len-marks zero = refl
len-marks (suc t) = ap (λ n. suc n) (len-marks t)

python-ReadsDates : ReadsDates python python_encoding
python-ReadsDates t = ap (λ n. some n) (len-marks t)

-- A coordinator that answers every request, with one lease.
abbrev pub answer_of : Call → HttpReply
answer_of (lease_call q) = record {
  status_code = 200;
  body = json_body (dict (python_encoding.lease_fields (lease_response echo_grant)));
}
answer_of c = record { status_code = 200; body = json_body null }

abbrev client : Client
client = record {
  stream = λ url.
      ok (record { status_code = 200; chunks = (1 ∷ 2 ∷ []) ∷ (3 ∷ []) ∷ []; broken = none });
  put_object = λ url bytes content_type. ok 412;
}

abbrev pub host : Host
host = record {
  lib = python;
  worker_id = "worker-1";
  plugins = echo_plugin python ∷ [];
  transfer = http_transfer client;
  http = λ n c. ok (answer_of c);
  concurrency = 1;
  max_input_bytes = 16;
  min_poll = 2000;
  max_poll = 60000;
  lease_seconds = 1200;
  tenant_id = some "acme";
  gpu_model = none;
  vram_mb = none;
  runtime_versions = [];
  machine = λ n. gpu_machine;
  clock = λ n. 1000000 + n;
  stopped = λ n. leb 2 n;
  random = λ n. 500000;
  seen = λ job reports. reports;
  late = λ job k. 50 ∷ [];
}

abbrev pub started : AgentState
started = record {
  busy_job_id = none;
  attached = false;
  looks = 0;
  workspaces = [];
  calls = [];
  pauses = [];
  sampler = new_sampler none;
}

serve-Settled_example :
    Settled host echo_grant []
      (serve host echo_grant started).0
      (serve host echo_grant started).1.calls
serve-Settled_example = serve-Settled host echo_grant started

run_forever-Finished_example : HasFinished host (run_forever host 3 started)
run_forever-Finished_example =
    run_forever-Finished host 2 (λ k more. ground (arith, more)) 3 started (omega arith)

run_forever-Clean_example : LeavesClean host (run_forever host 3 started)
run_forever-Clean_example = run_forever-Clean host 3 started (refl, refl)

lease_grant-lease_response_example :
    lease_grant python (dict (encoded_lease (lease_response echo_grant)))
    ≡ ok (record echo_grant { tenant_id = none })
lease_grant-lease_response_example =
    lease_grant-lease_response python python_encoding python-ReadsDates python_encoding-WritesGrants
      python_encoding-WritesLeases echo_grant

http_download-Bounded_example :
    IsBounded 16 []
      ((1 ∷ 2 ∷ []) ∷ (3 ∷ []) ∷ [])
      (http_download client "memory://read/in/a.png" true (some 16))
http_download-Bounded_example = http_download-Bounded client "memory://read/in/a.png" true 16 _ refl

abbrev input_paths : Dict String
input_paths = ("in/a.png", "inputs/a.png") ∷ ("in/b.png", "inputs/b.png") ∷ []

downloads : (download_inputs host echo_grant started).0 ≡ ok input_paths
unfolding download_inputs download_grants http_transfer http_download write_chunks destination
    names_file base_name split put remove
downloads = refl

download_inputs-Delivered_example :
    All
      (IsDelivered host input_paths
        (files_of "job-1" (download_inputs host echo_grant started).1.workspaces))
      echo_grant.input_grants
unfolding destination base_name split
download_inputs-Delivered_example =
    download_inputs-Delivered host echo_grant started input_paths downloads
      ((ground (arith, eq_iff "inputs/b.png" "inputs/a.png"), tt), (tt, tt))

abbrev pub peer_caller : Caller
peer_caller = record { authorization = some "Bearer token"; host = some "10.0.0.1" }

enrolls : HoldsEnrollments settings busy_pool.registry
unfolding busy_pool one_worker worker_row registered_record new_enrollment
enrolls worker_id w e =
    Entries-get (λ _ w. is_ok (new_enrollment settings.lib w.identity_subject w.tenant_id) ≡ true)
      worker_id w one_worker.workers (refl, tt) e

job_routes-Answered_example :
    IsAnswered settings peer_caller "job-1" busy_pool
      (beats_request (record { claim_token = "token-1"; progress_percent = some (pos 50) }))
job_routes-Answered_example =
    job_routes-Answered settings peer_caller "job-1" busy_pool
      (beats_request (record { claim_token = "token-1"; progress_percent = some (pos 50) }))
      (λ a. tt) enrolls

-- The echo plugin serves its lease, and the agent attests what it wrote.
serves : (serve host echo_grant started).0 ≡ ok completed_outcome
unfolding serve serve_validated run_job with_inputs executed execute job_heartbeats publish
    published handled cleaned download_inputs download_grants http_transfer http_download
    http_upload write_chunks destination names_file base_name split put remove get served_plugins
    served_capabilities status_result echo_plugin echo_validate echo_seed echo_label echo_request
    echo_execute echo_bytes encode joined_files sort_paths insert_path read_file digest_file
    digest_loop heartbeat sample_gpus field_get
serves = refl
