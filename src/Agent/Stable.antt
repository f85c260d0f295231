-- ===== src/Agent/Stable.antt =====
-- A property of the state that each step of the agent keeps is kept by its tasks.
use outbound_gpu_worker_pool.Base.{
  ℕ, ◌+◌, String, inl, inr, Bool, true, false, Option, none, some, [], nat_eq, Bool-cases,
  Option-cases, Dict, get, put,
}
use outbound_gpu_worker_pool.Contracts.{plugin_request_rejected, Result, ok, err, LeaseGrant}
use outbound_gpu_worker_pool.Plugins.{Files, ValidatedRequest, PluginOutput, Plugin}
use outbound_gpu_worker_pool.Agent.{
  ◌>>=◌, lease_call, continue, lift, served_plugins, AgentOutcome, idle, HttpReply, Host,
  AgentState,
}
use outbound_gpu_worker_pool.Agent.Calls.{drain_release_reason, status_result, post, heartbeat}
use outbound_gpu_worker_pool.Agent.Jobs.{
  ignoring_http, job_heartbeats, execution_of, execute, handled, cleaned, beating, closed, caught,
  executed, with_inputs, run_job, look_if, unless_stopping, serve_validated, serve,
}
use outbound_gpu_worker_pool.Agent.Talking.{
  continue-keeps, post-keeps, heartbeat-keeps, ignoring_http-keeps, reject-keeps, release-keeps,
  job_heartbeats-keeps, publish-keeps, handled-keeps, IsTalkative,
}
use outbound_gpu_worker_pool.Agent.Loop.{lease_request, leased, run_once}
use outbound_gpu_worker_pool.Agent.Inputs.{download_inputs}
use outbound_gpu_worker_pool.Agent.Publishing.{publish}
use outbound_gpu_worker_pool.Agent.Grants.{read_lease}

pub record IsStable (P : AgentState → Type 0) : Type 0 where
  pub talks : IsTalkative P
  pub keeps_busy : (b : Option String) (a : AgentState) → P a → P (record a { busy_job_id = b })
  pub keeps_files : (ws : Dict Files) (a : AgentState) → P a → P (record a { workspaces = ws })
  pub keeps_looks : (a : AgentState) → P a → P (record a { looks = a.looks + 1 })

module _ (P : AgentState → Type 0) (stable : IsStable P) (h : Host) where
  module _ (lease : LeaseGrant) where
    cleaned-keeps :
        (beats : Result (Unit {0})) (r : Result AgentOutcome) (a : AgentState)
        → P a
        → P (cleaned h lease beats (r, a)).1
    unfolding cleaned
    cleaned-keeps (err e) r a p = stable.keeps_busy none a p
    cleaned-keeps (ok _) r a p = stable.keeps_files _ _ (stable.keeps_busy none a p)

    closed-keeps :
        (beats : Result (Unit {0})) (r : Result AgentOutcome) (a : AgentState)
        → P a
        → P (cleaned h lease beats (handled h lease (r, a))).1
    closed-keeps beats r a p =
        cleaned-keeps beats (handled h lease (r, a)).0 (handled h lease (r, a)).1
          (handled-keeps P stable.talks h lease r a p)

    beating-keeps :
        (k : ℕ) (beats : Result (Unit {0})) (r : Result AgentOutcome) (a : AgentState)
        → P a
        → P (beating h lease k beats (r, a)).1
    unfolding beating
    beating-keeps k (err e) r a p = p
    beating-keeps k (ok u) r a p =
        job_heartbeats-keeps P stable.talks h lease (h.late lease.job_id k) a p

    caught-keeps :
        (r : Result AgentOutcome) (beats : Result (Unit {0})) (a : AgentState)
        → P a
        → P (caught h lease ((r, beats), a)).1
    unfolding caught closed
    caught-keeps (ok o) beats a p = cleaned-keeps beats (ok o) a p
    caught-keeps (err e) beats a p =
        let x = handled h lease (err e, a) in
        let late = beating h lease 1 beats x in
        cleaned-keeps late.0.1 late.0.0 late.1
          (beating-keeps 1 beats x.0 x.1 (handled-keeps P stable.talks h lease (err e) a p))

    executed-keeps :
        (output : Result PluginOutput) (beats : Result (Unit {0})) (a : AgentState)
        → P a
        → P (executed h lease ((output, beats), a)).1
    unfolding executed
    executed-keeps (err e) beats a p = caught-keeps (err e) beats a p
    executed-keeps (ok output) beats a p =
        let x = publish h lease output a in
        let late = beating h lease 0 beats x in
        caught-keeps late.0.0 late.0.1 late.1
          (beating-keeps 0 beats x.0 x.1 (publish-keeps P stable.talks h lease output a p))

    module _ (plugin : Plugin) (request : ValidatedRequest) where
      with_inputs-keeps :
          (paths : Result (Dict String)) (a : AgentState)
          → P a
          → P (with_inputs h plugin lease request (paths, a)).1
      unfolding with_inputs execute
      with_inputs-keeps (err e) a p = closed-keeps (ok tt) (err e) a p
      with_inputs-keeps (ok paths) a p =
          let x = execution_of h plugin lease request paths a in
          let beats =
            job_heartbeats h lease (h.seen lease.job_id x.reports)
              (record a { workspaces = put lease.job_id x.files a.workspaces }) in
          executed-keeps x.output beats.0 beats.1 (
            job_heartbeats-keeps P stable.talks h lease (h.seen lease.job_id x.reports) _
              (stable.keeps_files _ a p))

      unless_stopping-keeps :
          (stops : Bool) (a : AgentState)
          → P a
          → P (unless_stopping h plugin lease request stops a).1
      unfolding run_job download_inputs
      unless_stopping-keeps true a p = release-keeps P stable.talks h lease drain_release_reason a p
      unless_stopping-keeps false a p =
          let d = download_inputs h lease (record a { busy_job_id = some lease.job_id }) in
          with_inputs-keeps d.0 d.1 (stable.keeps_files _ _ (stable.keeps_busy _ a p))

      looked-keeps :
          (attached : Bool) (a : AgentState)
          → P a
          → P (continue (look_if h attached a) (unless_stopping h plugin lease request)).1
      looked-keeps true a p = unless_stopping-keeps (h.stopped a.looks) _ (stable.keeps_looks a p)
      looked-keeps false a p = unless_stopping-keeps false a p

    serve_validated-keeps :
        (plugin : Plugin) (request : Result ValidatedRequest) (a : AgentState)
        → P a
        → P (serve_validated h plugin lease request a).1
    unfolding serve_validated
    serve_validated-keeps plugin (ok request) a p = looked-keeps plugin request a.attached a p
    serve_validated-keeps plugin (err (plugin_request_rejected m)) a p =
        reject-keeps P stable.talks h lease m a p
    serve_validated-keeps plugin (err e) a p = p

    serve-keeps : (a : AgentState) → P a → P (serve h lease a).1
    unfolding serve
    serve-keeps a p = elim (Option-cases (get lease.capability_id (served_plugins h.plugins []))) [
      | inl e ↦
          rw (serve, e)
            (reject-keeps P stable.talks h lease "capability is not served by this worker" a p)
      | inr (plugin, e) ↦ rw (serve, e) (serve_validated-keeps plugin (plugin.validate lease) a p)
    ]

  leased-keeps : (reply : HttpReply) (a : AgentState) → P a → P (leased h reply a).1
  unfolding leased
  leased-keeps reply a p = elim (Bool-cases (nat_eq reply.status_code 204)) [
    | inl e ↦ rw (leased, e) p
    | inr e ↦
        rw (leased, e)
          (continue-keeps P stable.talks h (status_result reply) a
            (λ _. lift (read_lease h.lib reply.body) >>= serve h) p
            (λ _.
              continue-keeps P stable.talks h (read_lease h.lib reply.body) a (serve h) p
                (λ lease. serve-keeps lease a p)))
  ]

  -- `run_once` keeps what every step keeps.
  pub run_once-keeps : (a : AgentState) → P a → P (run_once h a).1
  unfolding run_once
  run_once-keeps a p =
      let beaten = heartbeat h false a in
      let kept = heartbeat-keeps P stable.talks h false a p in
      let asked = post h (lease_call (lease_request h)) beaten.1 in
      let kept2 = post-keeps P stable.talks h (lease_call (lease_request h)) beaten.1 kept in
      continue-keeps P stable.talks h beaten.0 beaten.1
        (λ _. post h (lease_call (lease_request h)) >>= leased h) kept
        (λ _.
          continue-keeps P stable.talks h asked.0 asked.1 (leased h) kept2
            (λ reply. leased-keeps reply asked.1 kept2))

  pub round-keeps : (a : AgentState) → P a → P (ignoring_http h idle (run_once h a)).1
  round-keeps a p =
      ignoring_http-keeps P stable.talks h idle (run_once h a).0 (run_once h a).1
        (run_once-keeps a p)
