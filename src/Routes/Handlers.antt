-- ===== src/Routes/Handlers.antt =====
-- The handlers of routes.py: the dependency that authenticates, and then the body of each route. A
-- request whose body or path fails its validation has been authenticated before.
use outbound_gpu_worker_pool.Base.{
  ℕ, String, Bool, true, false, ◌&&◌, Option, none, some, List, if◌then◌else◌, Dict,
}
use outbound_gpu_worker_pool.Contracts.{
  value_error, Result, ok, err, max_job_id_length, max_tenant_id_length,
  pool_worker_online_window_seconds, pool_worker_visibility_window_seconds, str, Fields,
  PoolWorkerView, WorkerIdentity, CapabilitySchema, LeaseGrant,
}
use outbound_gpu_worker_pool.Service.{Action, Settings, Pool}
use outbound_gpu_worker_pool.Service.Authentication.{authenticate}
use outbound_gpu_worker_pool.Service.Workers.{register_heartbeat}
use outbound_gpu_worker_pool.Service.Leases.{lease_job}
use outbound_gpu_worker_pool.Service.Jobs.{job_heartbeat, complete_job, fail_job, release_job}
use outbound_gpu_worker_pool.Service.Views.{capabilities_schema, worker_views, pool_depth}
use outbound_gpu_worker_pool.Routes.{
  answered, no_content, refused, unprocessable, crashed, refusal, Answer,
}
use outbound_gpu_worker_pool.Routes.Manifests.{to_manifest, valid_complete, CompleteRequest}
use outbound_gpu_worker_pool.Routes.Requests.{
  text_within, optional, valid_heartbeat, optional_part, to_registration, valid_lease,
  valid_job_heartbeat, valid_fail, valid_release, WorkerHeartbeatRequest, LeaseRequest,
  JobHeartbeatRequest, FailRequest, ReleaseRequest,
}
use outbound_gpu_worker_pool.Routes.Responses.{
  record_response, lease_response, worker_responses, queue_response, WorkerRecordResponse,
  LeaseResponse, JobHeartbeatResponse, SettleResponse, PoolWorkerResponse, PoolQueueResponse,
}

abbrev pub max_authorization_length : ℕ
max_authorization_length = 8192

-- `with _mapped_errors(): ...`, and what the handler makes of the value.
unfoldable pub respond : {A B : Type 0} → (A → Answer B) → Result A × Pool → Answer B × Pool
unfolding refusal
respond f (ok a, p) = (f a, p)
respond f (err e, p) = (refusal e, p)

-- `request.client.host if request.client else "unknown-peer"`
abbrev pub peer : Option String → String
peer none = "unknown-peer"
peer (some host) = host

-- The `Authorization` header and the peer's address.
pub record Caller : Type 0 where
  pub authorization : Option String
  pub host : Option String

unfoldable pub settle_response : String → String → Unit {0} → Answer SettleResponse
settle_response job_id status _ = answered (record { job_id = job_id; status = status })

unfoldable pub lease_answer : Option LeaseGrant → Answer LeaseResponse
unfolding lease_response
lease_answer none = no_content
lease_answer (some g) = answered (lease_response g)

abbrev pub beat_answer : ℕ → Answer JobHeartbeatResponse
beat_answer until = answered (record { lease_until = until })

abbrev pub valid_job_id : String → Bool
valid_job_id job_id = text_within 1 max_job_id_length job_id

module _ (s : Settings) where
  -- The route's body, once the caller is known and the request is valid.
  unfoldable pub admitted :
      {A B : Type 0}
      → Bool
      → (WorkerIdentity → Action A)
      → (A → Answer B)
      → Result WorkerIdentity × Pool
      → Answer B × Pool
  unfolding respond refusal
  admitted valid action f (err e, p) = (refusal e, p)
  admitted false action f (ok i, p) = (unprocessable, p)
  admitted true action f (ok i, p) = respond f (action i p)

  -- A route under `/worker/v1`, with its `Identity` dependency.
  unfoldable pub worker_route :
      {A B : Type 0}
      → Caller
      → Bool
      → (WorkerIdentity → Action A)
      → (A → Answer B)
      → Pool
      → Answer B × Pool
  unfolding admitted authenticate
  worker_route caller valid action f p =
      if optional (text_within 0 max_authorization_length) caller.authorization
      then admitted valid action f (authenticate s caller.authorization (peer caller.host) p)
      else (unprocessable, p)

  unfoldable pub register_route :
      Caller → WorkerHeartbeatRequest → Pool → Answer WorkerRecordResponse × Pool
  unfolding worker_route valid_heartbeat register_heartbeat to_registration record_response
  register_route caller q =
      worker_route caller (valid_heartbeat q) (λ i. register_heartbeat s i (to_registration q))
        (λ w. answered (record_response w))

  unfoldable pub lease_route : Caller → LeaseRequest → Pool → Answer LeaseResponse × Pool
  unfolding worker_route valid_lease lease_job lease_answer
  lease_route caller q =
      worker_route caller (valid_lease q)
        (λ i. lease_job s i q.capability_ids (optional_part q.lease_seconds)) lease_answer

  unfoldable pub job_heartbeat_route :
      Caller → String → JobHeartbeatRequest → Pool → Answer JobHeartbeatResponse × Pool
  unfolding worker_route valid_job_heartbeat job_heartbeat
  job_heartbeat_route caller job_id q =
      worker_route caller (valid_job_id job_id && valid_job_heartbeat q)
        (λ i. job_heartbeat s i job_id q.claim_token (optional_part q.progress_percent)) beat_answer

  unfoldable pub complete_route :
      Caller → String → CompleteRequest → Pool → Answer SettleResponse × Pool
  unfolding worker_route valid_complete complete_job to_manifest settle_response
  complete_route caller job_id q =
      worker_route caller (valid_job_id job_id && valid_complete s.lib q)
        (λ i. complete_job s i job_id q.claim_token (to_manifest q.manifest))
        (settle_response job_id "completed")

  unfoldable pub fail_route : Caller → String → FailRequest → Pool → Answer SettleResponse × Pool
  unfolding worker_route valid_fail fail_job settle_response
  fail_route caller job_id q =
      worker_route caller (valid_job_id job_id && valid_fail q)
        (λ i. fail_job s i job_id q.claim_token q.reason q.retryable q.failure_code)
        (settle_response job_id "failed")

  unfoldable pub release_route :
      Caller → String → ReleaseRequest → Pool → Answer SettleResponse × Pool
  unfolding worker_route valid_release release_job settle_response
  release_route caller job_id q =
      worker_route caller (valid_job_id job_id && valid_release q)
        (λ i. release_job s i job_id q.claim_token q.reason) (settle_response job_id "released")

  unfoldable pub schema_route : Caller → Dict CapabilitySchema → Pool → Answer Fields × Pool
  unfolding worker_route capabilities_schema
  schema_route caller schemas =
      worker_route caller true (λ i p. (ok (capabilities_schema schemas), p)) answered

  -- What the host's dependency gave: a literal `True`, or some other value.
  unfoldable pub require_admin :
      {A : Type 0} → Bool → (Pool → Answer A × Pool) → Pool → Answer A × Pool
  require_admin true route p = route p
  require_admin false route p = (refused 403 (str "pool administrator required"), p)

  -- A telemetry that the response model refuses raises in the handler.
  abbrev rows_answer : Option (List PoolWorkerResponse) → Answer (List PoolWorkerResponse)
  rows_answer none = crashed (value_error "response validation")
  rows_answer (some rows) = answered rows

  -- These two routes map no error of the service.
  abbrev unmapped : {A B : Type 0} → (A → Answer B) → Result A × Pool → Answer B × Pool
  unmapped f (ok a, p) = (f a, p)
  unmapped f (err e, p) = (crashed e, p)

  abbrev workers_action : Option String → Action (List PoolWorkerView)
  workers_action tenant =
      worker_views s tenant pool_worker_online_window_seconds pool_worker_visibility_window_seconds

  unfoldable pub list_pool_workers :
      Bool → Option String → Pool → Answer (List PoolWorkerResponse) × Pool
  unfolding require_admin worker_views worker_responses
  list_pool_workers authorized tenant = require_admin authorized (λ p.
      if optional (text_within 1 max_tenant_id_length) tenant
      then unmapped (λ views. rows_answer (worker_responses views)) (workers_action tenant p)
      else (unprocessable, p))

  unfoldable pub pool_queue : Bool → Pool → Answer PoolQueueResponse × Pool
  unfolding require_admin pool_depth queue_response
  pool_queue authorized =
      require_admin authorized
        (λ p. unmapped (λ depth. answered (queue_response depth)) (pool_depth s p))
