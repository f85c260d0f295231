-- ===== src/Agent.antt =====
-- `WorkerAgent` of agent.py: what it is built with, its state, and its methods as tasks on that
-- state. The coordinator, the object store and the plugins are arguments; so are the machine, the
-- clock and the stop event. A task that raises keeps what it has done before.
pub mod Grants
pub mod Calls
pub mod Inputs
pub mod Publishing
pub mod Jobs
pub mod Loop
pub mod Requests
pub mod Settled
pub mod Outcomes
pub mod Leases
pub mod Talking
pub mod Stable
pub mod Ending
pub mod Cleanup
pub mod Tidy
pub mod Downloads
pub mod Delivery
pub mod Completion
use outbound_gpu_worker_pool.Base.{
  ℕ, String, Bool, true, false, Option, none, List, [], ◌∷◌, if◌then◌else◌, ℤ, Dict, put,
}
use outbound_gpu_worker_pool.Contracts.{
  Error, value_error, type_error, worker_auth_error, worker_identity_mismatch, worker_auth_busy,
  identity_subject_taken, worker_tenant_mismatch, idempotency_conflict, profile_not_qualified,
  asset_not_found, asset_too_large, asset_storage_unavailable, rate_limited, worker_revoked,
  worker_mismatch, worker_not_registered, job_not_found, stale_lease, completion_rejected,
  transfer_error, plugin_request_rejected, http_error, foreign_error, Result, ok, err, Value,
  WorkerCapability,
}
use outbound_gpu_worker_pool.Stdlib.{Stdlib}
use outbound_gpu_worker_pool.Plugins.{Files, CapabilityManifest, Plugin}
use outbound_gpu_worker_pool.Routes.Manifests.{CompleteRequest}
use outbound_gpu_worker_pool.Routes.Requests.{
  WorkerHeartbeatRequest, LeaseRequest, JobHeartbeatRequest, FailRequest, ReleaseRequest,
}
use outbound_gpu_worker_pool.Sampler.{Machine, Sampler}

pub data AgentOutcome : Type 0 where
  idle completed_outcome failed_outcome released rejected_outcome : AgentOutcome

-- The requests of the agent, by their route. Each carries the credential, which is left out.
pub data Call : Type 0 where
  heartbeat_call : WorkerHeartbeatRequest → Call
  lease_call : LeaseRequest → Call
  job_heartbeat_call : String → JobHeartbeatRequest → Call
  complete_call : String → CompleteRequest → Call
  fail_call : String → FailRequest → Call
  release_call : String → ReleaseRequest → Call

-- The body of a response: JSON, or no JSON.
pub data Body : Type 0 where
  json_body : Value → Body
  no_json : Body

pub record HttpReply : Type 0 where
  pub status_code : ℕ
  pub body : Body

-- `AssetTransfer`: what `download` returns or raises, and the file that it leaves. It is told whether
-- the destination can be opened.
pub record Transfer : Type 0 where
  pub download : String → Bool → Option ℕ → Result ℕ × Option (List ℕ)
  pub upload : String → List ℕ → String → Result (Unit {0})

-- `http n` answers the n-th request, or raises: an `httpx.HTTPError`, or what `credential()` raises.
-- `stopped n` is what the n-th look at the stop event finds, `random n` the n-th draw in millionths,
-- `seen` the percents that the rounds of a job's heartbeat task find, of those that are reported, and
-- `late` those that its rounds find while the completion (0), or the rejection or release after an
-- error (1), is under way.
pub record Host : Type 0 where
  pub lib : Stdlib
  pub worker_id : String
  pub plugins : List Plugin
  pub transfer : Transfer
  pub http : ℕ → Call → Result HttpReply
  pub concurrency : ℕ
  pub max_input_bytes : ℕ
  pub min_poll : ℕ
  pub max_poll : ℕ
  pub lease_seconds : ℕ
  pub tenant_id : Option String
  pub gpu_model : Option String
  pub vram_mb : Option ℤ
  pub runtime_versions : Dict String
  pub machine : ℕ → Machine
  pub clock : ℕ → ℕ
  pub stopped : ℕ → Bool
  pub random : ℕ → ℕ
  pub seen : String → List ℕ → List ℕ
  pub late : String → ℕ → List ℕ

-- `attached` is whether `_stop` holds an event, and `looks` how often it has been asked. Workspaces
-- are the directories below the root, by job. Calls and pauses stand with the last one first; a
-- pause is in milliseconds.
pub record AgentState : Type 0 where
  pub busy_job_id : Option String
  pub attached : Bool
  pub looks : ℕ
  pub workspaces : Dict Files
  pub calls : List Call
  pub pauses : List ℕ
  pub sampler : Sampler

abbrev pub Task : Type 0 → Type 0
Task A = AgentState → Result A × AgentState

abbrev pub continue : {A B : Type 0} → Result A × AgentState → (A → Task B) → Result B × AgentState
continue (err e, a) f = (err e, a)
continue (ok x, a) f = f x a

infixl 5 ◌>>=◌ ◌>>◌
abbrev pub ◌>>=◌ : {A B : Type 0} → Task A → (A → Task B) → Task B
◌>>=◌ m f a = continue (m a) f

abbrev pub ◌>>◌ : {B : Type 0} → Task (Unit {0}) → Task B → Task B
◌>>◌ m k a = continue (m a) (λ _. k)

abbrev pub done : {A : Type 0} → A → Task A
done x a = (ok x, a)

abbrev pub lift : {A : Type 0} → Result A → Task A
lift r a = (r, a)

abbrev pub modify : (AgentState → AgentState) → Task (Unit {0})
modify f a = (ok tt, f a)

-- `_plugins`: the last plugin that serves a capability, at the first one's place.
abbrev add_capabilities : Plugin → List WorkerCapability → Dict Plugin → Dict Plugin
add_capabilities p [] d = d
add_capabilities p (c ∷ cs) d = add_capabilities p cs (put c.capability_id p d)

unfoldable pub served_plugins : List Plugin → Dict Plugin → Dict Plugin
served_plugins [] d = d
served_plugins (p ∷ ps) d = served_plugins ps (add_capabilities p p.capabilities.capabilities d)

abbrev served_capability : ℕ → CapabilityManifest → WorkerCapability → WorkerCapability
served_capability concurrency m c = record {
  capability_id = c.capability_id;
  plugin_id = m.plugin_id;
  plugin_version = m.plugin_version;
  concurrency = concurrency;
}

abbrev add_served :
    ℕ → CapabilityManifest → List WorkerCapability → Dict WorkerCapability → Dict WorkerCapability
add_served concurrency m [] d = d
add_served concurrency m (c ∷ cs) d =
    add_served concurrency m cs (put c.capability_id (served_capability concurrency m c) d)

-- `_capabilities`
unfoldable pub served_capabilities : ℕ → List Plugin → Dict WorkerCapability → Dict WorkerCapability
served_capabilities concurrency [] d = d
served_capabilities concurrency (p ∷ ps) d =
    served_capabilities concurrency ps
      (add_served concurrency p.capabilities p.capabilities.capabilities d)

-- The state that `__init__` leaves; without a plugin it raises.
unfoldable pub new_agent : Host → Sampler → Result AgentState
new_agent h sampler =
    if is_nil h.plugins
    then err (value_error "a worker must serve at least one plugin")
    else ok (record {
      busy_job_id = none;
      attached = false;
      looks = 0;
      workspaces = [];
      calls = [];
      pauses = [];
      sampler = sampler;
    })
  where
    is_nil : List Plugin → Bool
    is_nil [] = true
    is_nil (p ∷ ps) = false

-- `type(exc).__name__`
unfoldable pub type_name : Error → String
type_name (value_error m) = "ValueError"
type_name (type_error m) = "TypeError"
type_name (worker_auth_error m) = "WorkerAuthError"
type_name (worker_identity_mismatch m) = "WorkerIdentityMismatch"
type_name (worker_auth_busy m) = "WorkerAuthBusy"
type_name (identity_subject_taken m) = "IdentitySubjectTaken"
type_name (worker_tenant_mismatch m) = "WorkerTenantMismatch"
type_name (idempotency_conflict m) = "IdempotencyConflict"
type_name (profile_not_qualified m) = "ProfileNotQualified"
type_name (asset_not_found m) = "AssetNotFound"
type_name (asset_too_large key limit size) = "AssetTooLarge"
type_name (asset_storage_unavailable m) = "AssetStorageUnavailable"
type_name (rate_limited m) = "RateLimited"
type_name (worker_revoked m) = "WorkerRevoked"
type_name (worker_mismatch m) = "WorkerMismatch"
type_name (worker_not_registered m) = "WorkerNotRegistered"
type_name (job_not_found m) = "JobNotFound"
type_name (stale_lease m) = "StaleLease"
type_name (completion_rejected m) = "CompletionRejected"
type_name (transfer_error m) = "TransferError"
type_name (plugin_request_rejected m) = "PluginRequestRejected"
type_name (http_error name) = name
type_name (foreign_error name) = name
