-- ===== src/Agent/Jobs.antt =====
-- One lease of the agent: `_job_heartbeats` and `_serve`.
use outbound_gpu_worker_pool.Base.{
  ℕ, ◌+◌, String, Bool, true, false, none, some, List, [], ◌∷◌, length, pos_part, pos, Dict, get,
  put,
}
use outbound_gpu_worker_pool.Contracts.{
  plugin_request_rejected, http_error, Result, ok, err, seconds, LeaseGrant,
}
use outbound_gpu_worker_pool.Plugins.{
  ValidatedRequest, ExecutionContext, PluginOutput, Execution, Plugin,
}
use outbound_gpu_worker_pool.Routes.Requests.{JobHeartbeatRequest}
use outbound_gpu_worker_pool.Agent.{
  ◌>>◌, ◌>>=◌, job_heartbeat_call, Task, done, lift, served_plugins, type_name, AgentOutcome, Host,
  AgentState,
}
use outbound_gpu_worker_pool.Agent.Calls.{drain_release_reason, post, heartbeat, reject, release}
use outbound_gpu_worker_pool.Agent.Inputs.{remove, files_of, download_inputs}
use outbound_gpu_worker_pool.Agent.Publishing.{publish}

module _ (h : Host) where
  -- `except httpx.HTTPError`
  abbrev pub ignoring_http : {A : Type 0} → A → Result A × AgentState → Result A × AgentState
  ignoring_http x (err (http_error m), a) = (ok x, a)
  ignoring_http x (r, a) = (r, a)

  abbrev pub progress_request : LeaseGrant → ℕ → JobHeartbeatRequest
  progress_request lease percent = record {
    claim_token = lease.claim_token;
    progress_percent = some (pos percent);
  }

  abbrev pub progress_post : LeaseGrant → ℕ → Task (Unit {0})
  progress_post lease percent = do
    _ ← post h (job_heartbeat_call lease.job_id (progress_request lease percent))
    done tt

  -- Rounds of the heartbeat task of a job. An error of another class ends the task.
  unfoldable pub job_heartbeats : LeaseGrant → List ℕ → Task (Unit {0})
  unfolding heartbeat
  job_heartbeats lease [] = done tt
  job_heartbeats lease (percent ∷ percents) = do
    (λ a. ignoring_http tt (progress_post lease percent a))
    (λ a. ignoring_http tt (heartbeat h false a))
    job_heartbeats lease percents

  abbrev context_of : LeaseGrant → Dict String → ℕ → ExecutionContext
  context_of lease paths now = record {
    job_id = lease.job_id;
    lease_id = lease.claim_token;
    deadline = now + seconds (pos_part lease.execution_deadline_seconds);
    input_paths = paths;
  }

  -- What the plugin did in the job's workspace.
  abbrev pub execution_of :
      Plugin → LeaseGrant → ValidatedRequest → Dict String → AgentState → Execution
  execution_of p lease request paths a =
      p.execute (context_of lease paths (h.clock (length a.calls))) request
        (files_of lease.job_id a.workspaces)

  -- The plugin's result, and how the heartbeat task beside it went.
  unfoldable pub execute :
      Plugin
      → LeaseGrant
      → ValidatedRequest
      → Dict String
      → AgentState
      → (Result PluginOutput × Result (Unit {0})) × AgentState
  unfolding job_heartbeats
  execute p lease request paths a =
      let x = execution_of p lease request paths a in
      let (beats, a1) =
        job_heartbeats lease (h.seen lease.job_id x.reports)
          (record a { workspaces = put lease.job_id x.files a.workspaces }) in
      ((x.output, beats), a1)

  -- The two `except` clauses.
  unfoldable pub handled :
      LeaseGrant → Result AgentOutcome × AgentState → Result AgentOutcome × AgentState
  unfolding reject release type_name
  handled lease (ok o, a) = (ok o, a)
  handled lease (err (plugin_request_rejected m), a) = reject h lease m a
  handled lease (err e, a) = release h lease (type_name e) a

  -- The `finally` clause. The error of a heartbeat task that is over comes out of its `await`, before
  -- the workspace is removed.
  unfoldable pub cleaned :
      LeaseGrant
      → Result (Unit {0})
      → Result AgentOutcome × AgentState
      → Result AgentOutcome × AgentState
  unfolding remove
  cleaned lease (err e) (r, a) = (err e, record a { busy_job_id = none })
  cleaned lease (ok _) (r, a) =
      (r, record a { busy_job_id = none; workspaces = remove lease.job_id a.workspaces })

  -- The heartbeat task goes on while a request that settles the job is under way, unless it is over.
  unfoldable pub beating :
      LeaseGrant
      → ℕ
      → Result (Unit {0})
      → Result AgentOutcome × AgentState
      → (Result AgentOutcome × Result (Unit {0})) × AgentState
  unfolding job_heartbeats
  beating lease k (err e) (r, a) = ((r, err e), a)
  beating lease k (ok _) (r, a) =
      let (beats, a1) = job_heartbeats lease (h.late lease.job_id k) a in ((r, beats), a1)

  unfoldable pub closed :
      LeaseGrant
      → (Result AgentOutcome × Result (Unit {0})) × AgentState
      → Result AgentOutcome × AgentState
  unfolding cleaned
  closed lease ((r, beats), a) = cleaned lease beats (r, a)

  -- The `except` clauses, where the heartbeat task has been started.
  unfoldable pub caught :
      LeaseGrant
      → (Result AgentOutcome × Result (Unit {0})) × AgentState
      → Result AgentOutcome × AgentState
  unfolding handled cleaned closed beating
  caught lease ((ok o, beats), a) = cleaned lease beats (ok o, a)
  caught lease ((err e, beats), a) = closed lease (beating lease 1 beats (handled lease (err e, a)))

  -- The inner `try` of `_serve`, once its inputs are there.
  unfoldable pub executed :
      LeaseGrant
      → (Result PluginOutput × Result (Unit {0})) × AgentState
      → Result AgentOutcome × AgentState
  unfolding caught publish beating
  executed lease ((err e, beats), a) = caught lease ((err e, beats), a)
  executed lease ((ok output, beats), a) =
      caught lease (beating lease 0 beats (publish h lease output a))

  unfoldable pub with_inputs :
      Plugin
      → LeaseGrant
      → ValidatedRequest
      → Result (Dict String) × AgentState
      → Result AgentOutcome × AgentState
  unfolding executed execute handled cleaned
  with_inputs p lease request (err e, a) = cleaned lease (ok tt) (handled lease (err e, a))
  with_inputs p lease request (ok paths, a) = executed lease (execute p lease request paths a)

  unfoldable pub run_job : Plugin → LeaseGrant → ValidatedRequest → Task AgentOutcome
  unfolding with_inputs download_inputs
  run_job p lease request a =
      with_inputs p lease request
        (download_inputs h lease (record a { busy_job_id = some lease.job_id }))

  -- `self._stop is not None and self._stop.is_set()`
  abbrev pub look_if : Bool → Task Bool
  look_if true a = (ok (h.stopped a.looks), record a { looks = a.looks + 1 })
  look_if false a = (ok false, a)

  abbrev pub stopping : Task Bool
  stopping a = look_if a.attached a

  abbrev pub unless_stopping : Plugin → LeaseGrant → ValidatedRequest → Bool → Task AgentOutcome
  unless_stopping p lease request true = release h lease drain_release_reason
  unless_stopping p lease request false = run_job p lease request

  unfoldable pub serve_validated : Plugin → LeaseGrant → Result ValidatedRequest → Task AgentOutcome
  unfolding run_job reject release
  serve_validated p lease (err (plugin_request_rejected m)) = reject h lease m
  serve_validated p lease (err e) = lift (err e)
  serve_validated p lease (ok request) = stopping >>= unless_stopping p lease request

  unfoldable pub serve : LeaseGrant → Task AgentOutcome
  unfolding serve_validated reject served_plugins
  serve lease = elim (get lease.capability_id (served_plugins h.plugins [])) [
    | none ↦ reject h lease "capability is not served by this worker"
    | some p ↦ serve_validated p lease (p.validate lease)
  ]
