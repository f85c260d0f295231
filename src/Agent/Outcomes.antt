-- ===== src/Agent/Outcomes.antt =====
-- What the coordinator has been told when `_serve` returns an outcome.
use outbound_gpu_worker_pool.Base.{
  ℕ, String, refl, inl, inr, Bool, true, false, some, List, [], Option-cases, Dict, get, put,
}
use outbound_gpu_worker_pool.Contracts.{plugin_request_rejected, Result, ok, err, LeaseGrant}
use outbound_gpu_worker_pool.Agent.{
  continue, served_plugins, type_name, AgentOutcome, Call, Host, AgentState,
}
use outbound_gpu_worker_pool.Agent.Calls.{drain_release_reason}
use outbound_gpu_worker_pool.Agent.Jobs.{
  job_heartbeats, execution_of, execute, handled, cleaned, beating, closed, caught, executed,
  with_inputs, run_job, look_if, unless_stopping, serve_validated, serve,
}
use outbound_gpu_worker_pool.Plugins.{ValidatedRequest, PluginOutput, Plugin}
use outbound_gpu_worker_pool.Agent.Inputs.{download_inputs}
use outbound_gpu_worker_pool.Agent.Requests.{Since, job_heartbeats-Since, job_heartbeats-IsBeat}
use outbound_gpu_worker_pool.Agent.Publishing.{publish}
use outbound_gpu_worker_pool.Agent.Settled.{
  Settled, Settled→Since, Settled-beats, SettledBy, reject-Settled, release-Settled,
  publish-Settled,
}

module _ (h : Host) (lease : LeaseGrant) where
  handled-Settled :
      (old : List Call) (r : Result AgentOutcome) (a : AgentState)
      → Settled h lease old r a.calls
      → SettledBy h lease old (handled h lease (r, a))
  unfolding handled
  handled-Settled old (ok o) a s = s
  handled-Settled old (err (plugin_request_rejected m)) a s = reject-Settled h lease old m a s
  handled-Settled old (err e) a s = release-Settled h lease old (type_name e) a s

  cleaned-Settled :
      (old : List Call) (beats : Result (Unit {0})) (r : Result AgentOutcome) (a : AgentState)
      → Settled h lease old r a.calls
      → SettledBy h lease old (cleaned h lease beats (r, a))
  unfolding cleaned
  cleaned-Settled old (err e) r a s = Settled→Since h lease old r a.calls s
  cleaned-Settled old (ok _) r a s = s

  beating-Settled :
      (old : List Call) (k : ℕ) (beats : Result (Unit {0})) (r : Result AgentOutcome)
      (a : AgentState)
      → Settled h lease old r a.calls
      → Settled h lease old r (beating h lease k beats (r, a)).1.calls
  unfolding beating
  beating-Settled old k (err e) r a s = s
  beating-Settled old k (ok _) r a s =
      Settled-beats h lease old r a.calls _
        (job_heartbeats-IsBeat h lease (h.late lease.job_id k) a) s

  closed-Settled :
      (old : List Call) (k : ℕ) (beats : Result (Unit {0})) (r : Result AgentOutcome)
      (a : AgentState)
      → Settled h lease old r a.calls
      → SettledBy h lease old (closed h lease (beating h lease k beats (r, a)))
  unfolding closed beating
  closed-Settled old k (err e) r a s = cleaned-Settled old (err e) r a s
  closed-Settled old k (ok u) r a s =
      let late = beating h lease k (ok u) (r, a) in
      cleaned-Settled old late.0.1 r late.1 (beating-Settled old k (ok u) r a s)

  caught-Settled :
      (old : List Call) (r : Result AgentOutcome) (beats : Result (Unit {0})) (a : AgentState)
      → Settled h lease old r a.calls
      → SettledBy h lease old (caught h lease ((r, beats), a))
  unfolding caught
  caught-Settled old (ok o) beats a s = cleaned-Settled old beats (ok o) a s
  caught-Settled old (err e) beats a s =
      let x = handled h lease (err e, a) in
      closed-Settled old 1 beats x.0 x.1 (handled-Settled old (err e) a s)

  executed-Settled :
      (old : List Call) (output : Result PluginOutput) (beats : Result (Unit {0})) (a : AgentState)
      → Since lease old a.calls
      → SettledBy h lease old (executed h lease ((output, beats), a))
  unfolding executed beating
  executed-Settled old (err e) beats a since = caught-Settled old (err e) beats a since
  executed-Settled old (ok output) (err e) a since =
      let p = publish h lease output a in
      caught-Settled old p.0 (err e) p.1 (publish-Settled h lease old output a since)
  executed-Settled old (ok output) (ok u) a since =
      let p = publish h lease output a in
      let late = beating h lease 0 (ok u) p in
      caught-Settled old p.0 late.0.1 late.1
        (beating-Settled old 0 (ok u) p.0 p.1 (publish-Settled h lease old output a since))

  with_inputs-Settled :
      (old : List Call) (p : Plugin) (request : ValidatedRequest) (paths : Result (Dict String))
      (a : AgentState)
      → Since lease old a.calls
      → SettledBy h lease old (with_inputs h p lease request (paths, a))
  unfolding with_inputs execute
  with_inputs-Settled old p request (err e) a since =
      let r = handled h lease (err e, a) in
      cleaned-Settled old (ok tt) r.0 r.1 (handled-Settled old (err e) a since)
  with_inputs-Settled old p request (ok paths) a since =
      let x = execution_of h p lease request paths a in
      let beats =
        job_heartbeats h lease (h.seen lease.job_id x.reports)
          (record a { workspaces = put lease.job_id x.files a.workspaces }) in
      executed-Settled old x.output beats.0 beats.1 (job_heartbeats-Since h lease old _ _ since)

  unless_stopping-Settled :
      (old : List Call) (p : Plugin) (request : ValidatedRequest) (stops : Bool) (a : AgentState)
      → Since lease old a.calls
      → SettledBy h lease old (unless_stopping h p lease request stops a)
  unfolding run_job download_inputs
  unless_stopping-Settled old p request true a since =
      release-Settled h lease old drain_release_reason a since
  unless_stopping-Settled old p request false a since =
      let d = download_inputs h lease (record a { busy_job_id = some lease.job_id }) in
      with_inputs-Settled old p request d.0 d.1 since

  serve_validated-Settled :
      (old : List Call) (p : Plugin) (request : Result ValidatedRequest) (a : AgentState)
      → Since lease old a.calls
      → SettledBy h lease old (serve_validated h p lease request a)
  unfolding serve_validated
  serve_validated-Settled old p (ok request) a since = go a.attached
    where
      go :
          (attached : Bool)
          → SettledBy h lease old
              (continue (look_if h attached a) (unless_stopping h p lease request))
      go true = unless_stopping-Settled old p request (h.stopped a.looks) _ since
      go false = unless_stopping-Settled old p request false a since
  serve_validated-Settled old p (err (plugin_request_rejected m)) a since =
      reject-Settled h lease old m a since
  serve_validated-Settled old p (err e) a since = since

  -- What `_serve` tells the coordinator about a lease: presence heartbeats and requests on the leased
  -- job under its claim token, and nothing else. An outcome agrees with the last of these requests
  -- that is no heartbeat: COMPLETED with a completion that the coordinator answered with a 2xx status,
  -- FAILED with a completion that it answered with 409 or 422, REJECTED with a failure that is not to
  -- be retried, RELEASED with a release; IDLE is never returned.
  pub serve-Settled :
      (a : AgentState) → Settled h lease a.calls (serve h lease a).0 (serve h lease a).1.calls
  unfolding serve
  serve-Settled a = elim (Option-cases (get lease.capability_id (served_plugins h.plugins []))) [
    | inl e ↦
        rw (serve, e)
          (reject-Settled h lease a.calls "capability is not served by this worker" a
            ([], refl, tt))
    | inr (p, e) ↦
        rw (serve, e) (serve_validated-Settled a.calls p (p.validate lease) a ([], refl, tt))
  ]
