-- ===== src/Agent/Publishing.antt =====
-- Handing in the output of a job: `_publish` and `_completion_reason`.
use outbound_gpu_worker_pool.Base.{
  ℕ, String, Bool, true, false, ◌||◌, Option, none, some, List, nat_eq, if◌then◌else◌, is_empty,
  pos, get,
}
use outbound_gpu_worker_pool.Contracts.{
  value_error, foreign_error, Result, ok, err, publication_mode_immutable_create_once, field_get,
  Value, str, dict, WorkerCapability, LeaseGrant,
}
use outbound_gpu_worker_pool.Stdlib.{Stdlib}
use outbound_gpu_worker_pool.Plugins.{read_file, PluginOutput}
use outbound_gpu_worker_pool.Routes.Manifests.{OutputManifestDto, CompleteRequest}
use outbound_gpu_worker_pool.Agent.{
  ◌>>◌, ◌>>=◌, complete_call, json_body, no_json, Task, done, lift, AgentOutcome, completed_outcome,
  failed_outcome, Body, HttpReply, Host,
}
use outbound_gpu_worker_pool.Agent.Calls.{status_result, raise_for_status, capabilities, post}
use outbound_gpu_worker_pool.Agent.Inputs.{digest_file, files_of}

-- `str(detail)`, for the log alone: reading it may raise.
abbrev text_of : Stdlib → Value → String
text_of lib (str s) = s
text_of lib v = lib.render v

abbrev reason_of : Stdlib → Option Value → String
reason_of lib none = ""
reason_of lib (some v) = text_of lib v

abbrev detail_text : Stdlib → Option Value → String
unfolding field_get
detail_text lib none = "None"
detail_text lib (some (dict fs)) = reason_of lib (field_get "reason" fs)
detail_text lib (some v) = text_of lib v

unfoldable pub completion_reason : Stdlib → Body → Result String
unfolding field_get
completion_reason lib (json_body (dict fs)) = ok (detail_text lib (field_get "detail" fs))
completion_reason lib (json_body v) = err (foreign_error "AttributeError")
completion_reason lib no_json = err (value_error "response is no JSON")

abbrev or_else : Option String → String → String
or_else none d = d
or_else (some s) d = if is_empty s then d else s

module _ (h : Host) where
  abbrev manifest_json :
      LeaseGrant → PluginOutput → WorkerCapability → String × ℕ → OutputManifestDto
  manifest_json lease output c (digest, byte_length) = record {
    output_key = lease.output_key;
    content_type = output.content_type;
    byte_length = pos byte_length;
    sha256 = digest;
    idempotency_key = lease.idempotency_key;
    request_digest = lease.request_digest;
    plugin_id = c.plugin_id;
    plugin_version = c.plugin_version;
    model_id = output.model_id;
    model_version = output.model_version;
    publication_mode = publication_mode_immutable_create_once;
    seed = output.seed;
    diagnostics = output.diagnostics;
  }

  -- `self._capabilities[lease.capability_id]`
  abbrev pub served_by : LeaseGrant → Result WorkerCapability
  served_by lease = elim (get lease.capability_id (capabilities h)) [
    | none ↦ err (foreign_error "KeyError")
    | some c ↦ ok c
  ]

  -- 409 and 422
  abbrev pub not_accepted : ℕ → Bool
  not_accepted status = nat_eq status 409 || nat_eq status 422

  unfoldable pub published : HttpReply → Task AgentOutcome
  unfolding completion_reason status_result
  published r = elim (not_accepted r.status_code) [
    | true ↦ lift (completion_reason h.lib r.body) >>= λ _. done failed_outcome
    | false ↦ raise_for_status r >> done completed_outcome
  ]

  abbrev pub output_file : LeaseGrant → PluginOutput → Task (List ℕ)
  output_file lease output a = (read_file output.path (files_of lease.job_id a.workspaces), a)

  abbrev pub complete_request :
      LeaseGrant → PluginOutput → WorkerCapability → List ℕ → CompleteRequest
  complete_request lease output c file = record {
    claim_token = lease.claim_token;
    manifest = manifest_json lease output c (digest_file h.lib file);
  }

  abbrev pub upload_output : LeaseGrant → PluginOutput → List ℕ → Result (Unit {0})
  upload_output lease output file =
      h.transfer.upload lease.output_grant.url file
        (or_else lease.output_grant.content_type output.content_type)

  abbrev pub attest : LeaseGrant → PluginOutput → List ℕ → WorkerCapability → Task AgentOutcome
  unfolding published digest_file
  attest lease output file c =
      post h (complete_call lease.job_id (complete_request lease output c file)) >>= published

  abbrev pub publish_file : LeaseGrant → PluginOutput → List ℕ → Task AgentOutcome
  publish_file lease output file =
      lift (upload_output lease output file)
      >> (lift (served_by lease) >>= attest lease output file)

  unfoldable pub publish : LeaseGrant → PluginOutput → Task AgentOutcome
  unfolding digest_file published read_file
  publish lease output = output_file lease output >>= publish_file lease output
