-- ===== src/Agent/Cleanup.antt =====
-- The state that a lease leaves behind: no busy job, and no workspace.
use outbound_gpu_worker_pool.Base.{
  ℕ, String, ◌≡◌, refl, ap, ◌∙◌, inl, inr, Bool, true, false, none, some, List, [], ◌∷◌, arith,
  eq_iff, Option-cases, Dict, get, put,
}
use outbound_gpu_worker_pool.Contracts.{
  Error, plugin_request_rejected, http_error, Result, ok, err, LeaseGrant,
}
use outbound_gpu_worker_pool.Plugins.{ValidatedRequest, PluginOutput, Plugin}
use outbound_gpu_worker_pool.Agent.{
  ◌>>◌, Task, continue, served_plugins, AgentOutcome, Host, AgentState,
}
use outbound_gpu_worker_pool.Agent.Calls.{drain_release_reason, heartbeat, reject, release}
use outbound_gpu_worker_pool.Agent.Inputs.{remove, download_inputs}
use outbound_gpu_worker_pool.Agent.Jobs.{
  ignoring_http, progress_post, job_heartbeats, execution_of, execute, handled, cleaned, beating,
  closed, caught, executed, with_inputs, run_job, look_if, unless_stopping, serve_validated, serve,
}
use outbound_gpu_worker_pool.Agent.Talking.{
  reject-keeps, release-keeps, job_heartbeats-keeps, publish-keeps, handled-keeps, IsTalkative,
}
use outbound_gpu_worker_pool.Agent.Publishing.{publish}

remove-put : {A : Type 0} (k : String) (v : A) (d : Dict A) → remove k (put k v d) ≡ remove k d
unfolding remove put
remove-put k v [] = ground (arith, eq_iff k k)
remove-put k v ((j, w) ∷ d) = ground (arith, eq_iff j k, remove-put k v d)

remove-remove : {A : Type 0} (k : String) (d : Dict A) → remove k (remove k d) ≡ remove k d
unfolding remove
remove-remove k [] = refl
remove-remove k ((j, w) ∷ d) = ground (arith, eq_iff j k, remove-remove k d)

-- Between two leases.
abbrev pub IsIdle : AgentState → Type 0
IsIdle a = (a.busy_job_id ≡ none) × (a.workspaces ≡ [])

-- A result that the loop goes on from: a value, or an `httpx.HTTPError`.
abbrev pub IfHttp : Error → Type 0 → Type 0
IfHttp (http_error m) X = X
IfHttp e X = Unit

abbrev pub IfGoesOn : {A : Type 0} → Result A → Type 0 → Type 0
IfGoesOn (ok x) X = X
IfGoesOn (err e) X = IfHttp e X

abbrev pub IsCleaned : {A : Type 0} → Result A × AgentState → Type 0
IsCleaned (r, a) = (a.busy_job_id ≡ none) × IfGoesOn r (a.workspaces ≡ [])

pub Idle→Cleaned : {A : Type 0} (r : Result A) (a : AgentState) → IsIdle a → IsCleaned (r, a)
Idle→Cleaned (ok x) a free = free
Idle→Cleaned (err (http_error m)) a free = free
Idle→Cleaned (err e) a free = (free.0, tt)

pub continue-Cleaned :
    {A B : Type 0} (r : Result A) (a : AgentState) (f : A → Task B)
    → IsIdle a
    → ((x : A) → IsCleaned (f x a))
    → IsCleaned (continue (r, a) f)
continue-Cleaned (ok x) a f free next = next x
continue-Cleaned {B = B} (err e) a f free next = Idle→Cleaned {A = B} (err e) a free

pub IsIdle-IsTalkative : IsTalkative IsIdle
IsIdle-IsTalkative = record { keeps_calls = λ cs a p. p; keeps_sampler = λ g a p. p }

-- A result that is no `httpx.HTTPError`.
abbrev NotHttp : {A : Type 0} → Result A → Type 0
NotHttp (ok x) = Unit
NotHttp (err e) = IfHttp e ⊥

module _ (h : Host) where
  ignored-NotHttp :
      {A : Type 0} (x : A) (r : Result A) (a : AgentState) → NotHttp (ignoring_http h x (r, a)).0
  ignored-NotHttp x (ok y) a = tt
  ignored-NotHttp x (err (http_error m)) a = tt
  ignored-NotHttp x (err e) a = tt

  continue-NotHttp :
      {A B : Type 0} (r : Result A) (a : AgentState) (f : A → Task B)
      → NotHttp r
      → ((x : A) → NotHttp (f x a).0)
      → NotHttp (continue (r, a) f).0
  continue-NotHttp (ok x) a f fine next = next x
  continue-NotHttp (err e) a f fine next = fine

  module _ (lease : LeaseGrant) where
    job_heartbeats-NotHttp :
        (percents : List ℕ) (a : AgentState) → NotHttp (job_heartbeats h lease percents a).0
    unfolding job_heartbeats
    job_heartbeats-NotHttp [] a = tt
    job_heartbeats-NotHttp (percent ∷ percents) a =
        let posted = progress_post h lease percent a in
        let told = ignoring_http h tt posted in
        let beat = heartbeat h false told.1 in
        let beaten = ignoring_http h tt beat in
        continue-NotHttp told.0 told.1
          (λ _.
            (λ a2. ignoring_http h tt (heartbeat h false a2)) >> job_heartbeats h lease percents)
          (ignored-NotHttp tt posted.0 posted.1)
          (λ _.
            continue-NotHttp beaten.0 beaten.1 (λ _. job_heartbeats h lease percents)
              (ignored-NotHttp tt beat.0 beat.1) (λ _. job_heartbeats-NotHttp percents beaten.1))

    -- While the job runs, its workspace is the only one.
    abbrev IsOnly : AgentState → Type 0
    IsOnly a = remove lease.job_id a.workspaces ≡ []

    IsOnly-IsTalkative : IsTalkative IsOnly
    IsOnly-IsTalkative = record { keeps_calls = λ cs a p. p; keeps_sampler = λ g a p. p }

    cleaned-Cleaned :
        (beats : Result (Unit {0})) (r : Result AgentOutcome) (a : AgentState)
        → NotHttp beats
        → IsOnly a
        → IsCleaned (cleaned h lease beats (r, a))
    unfolding cleaned
    cleaned-Cleaned (ok u) r a fine only =
        Idle→Cleaned r
          (record a { busy_job_id = none; workspaces = remove lease.job_id a.workspaces })
          (refl, only)
    cleaned-Cleaned (err (http_error m)) r a fine only = absurd fine
    cleaned-Cleaned (err e) r a fine only = (refl, tt)

    closed-Cleaned :
        (beats : Result (Unit {0})) (r : Result AgentOutcome) (a : AgentState)
        → NotHttp beats
        → IsOnly a
        → IsCleaned (cleaned h lease beats (handled h lease (r, a)))
    closed-Cleaned beats r a fine only =
        let x = handled h lease (r, a) in
        cleaned-Cleaned beats x.0 x.1 fine
          (handled-keeps IsOnly IsOnly-IsTalkative h lease r a only)

    -- What the heartbeat task leaves: no `httpx.HTTPError`, and the workspaces as they are.
    abbrev BeatsOn : (Result AgentOutcome × Result (Unit {0})) × AgentState → Type 0
    BeatsOn ((r, beats), a) = NotHttp beats × IsOnly a

    beating-BeatsOn :
        (k : ℕ) (beats : Result (Unit {0})) (r : Result AgentOutcome) (a : AgentState)
        → NotHttp beats
        → IsOnly a
        → BeatsOn (beating h lease k beats (r, a))
    unfolding beating
    beating-BeatsOn k (err e) r a fine only = (fine, only)
    beating-BeatsOn k (ok u) r a fine only =
        let late = h.late lease.job_id k in
        (
          job_heartbeats-NotHttp late a,
          job_heartbeats-keeps IsOnly IsOnly-IsTalkative h lease late a only,
        )

    caught-Cleaned :
        (r : Result AgentOutcome) (beats : Result (Unit {0})) (a : AgentState)
        → NotHttp beats
        → IsOnly a
        → IsCleaned (caught h lease ((r, beats), a))
    unfolding caught closed
    caught-Cleaned (ok o) beats a fine only = cleaned-Cleaned beats (ok o) a fine only
    caught-Cleaned (err e) beats a fine only =
        let x = handled h lease (err e, a) in
        let late = beating h lease 1 beats x in
        let on =
          beating-BeatsOn 1 beats x.0 x.1 fine
            (handled-keeps IsOnly IsOnly-IsTalkative h lease (err e) a only) in
        cleaned-Cleaned late.0.1 late.0.0 late.1 on.0 on.1

    executed-Cleaned :
        (output : Result PluginOutput) (beats : Result (Unit {0})) (a : AgentState)
        → NotHttp beats
        → IsOnly a
        → IsCleaned (executed h lease ((output, beats), a))
    unfolding executed
    executed-Cleaned (err e) beats a fine only = caught-Cleaned (err e) beats a fine only
    executed-Cleaned (ok output) beats a fine only =
        let x = publish h lease output a in
        let late = beating h lease 0 beats x in
        let on =
          beating-BeatsOn 0 beats x.0 x.1 fine
            (publish-keeps IsOnly IsOnly-IsTalkative h lease output a only) in
        caught-Cleaned late.0.0 late.0.1 late.1 on.0 on.1

    module _ (plugin : Plugin) (request : ValidatedRequest) where
      with_inputs-Cleaned :
          (paths : Result (Dict String)) (a : AgentState)
          → IsOnly a
          → IsCleaned (with_inputs h plugin lease request (paths, a))
      unfolding with_inputs execute
      with_inputs-Cleaned (err e) a only = closed-Cleaned (ok tt) (err e) a tt only
      with_inputs-Cleaned (ok paths) a only =
          let x = execution_of h plugin lease request paths a in
          let seen = h.seen lease.job_id x.reports in
          let a1 = record a { workspaces = put lease.job_id x.files a.workspaces } in
          let beats = job_heartbeats h lease seen a1 in
          executed-Cleaned x.output beats.0 beats.1 (job_heartbeats-NotHttp seen a1) (
            job_heartbeats-keeps IsOnly IsOnly-IsTalkative h lease seen a1
              (remove-put lease.job_id x.files a.workspaces ∙ only))

      unless_stopping-Cleaned :
          (stops : Bool) (a : AgentState)
          → IsIdle a
          → IsCleaned (unless_stopping h plugin lease request stops a)
      unfolding run_job download_inputs
      unless_stopping-Cleaned true a free =
          let r = release h lease drain_release_reason a in
          Idle→Cleaned r.0 r.1
            (release-keeps IsIdle IsIdle-IsTalkative h lease drain_release_reason a free)
      unless_stopping-Cleaned false a free =
          let d = download_inputs h lease (record a { busy_job_id = some lease.job_id }) in
          with_inputs-Cleaned d.0 d.1 (
            remove-put lease.job_id _ (remove lease.job_id a.workspaces)
            ∙ remove-remove lease.job_id a.workspaces
            ∙ ap (remove lease.job_id) free.1)

      looked-Cleaned :
          (attached : Bool) (a : AgentState)
          → IsIdle a
          → IsCleaned (continue (look_if h attached a) (unless_stopping h plugin lease request))
      looked-Cleaned true a free = unless_stopping-Cleaned (h.stopped a.looks) _ free
      looked-Cleaned false a free = unless_stopping-Cleaned false a free

    rejected-Cleaned :
        (reason : String) (a : AgentState) → IsIdle a → IsCleaned (reject h lease reason a)
    rejected-Cleaned reason a free =
        let r = reject h lease reason a in
        Idle→Cleaned r.0 r.1 (reject-keeps IsIdle IsIdle-IsTalkative h lease reason a free)

    serve_validated-Cleaned :
        (plugin : Plugin) (request : Result ValidatedRequest) (a : AgentState)
        → IsIdle a
        → IsCleaned (serve_validated h plugin lease request a)
    unfolding serve_validated
    serve_validated-Cleaned plugin (ok request) a free =
        looked-Cleaned plugin request a.attached a free
    serve_validated-Cleaned plugin (err (plugin_request_rejected m)) a free =
        rejected-Cleaned m a free
    serve_validated-Cleaned plugin (err e) a free = Idle→Cleaned {A = AgentOutcome} (err e) a free

    pub serve-Cleaned : (a : AgentState) → IsIdle a → IsCleaned (serve h lease a)
    unfolding serve
    serve-Cleaned a free =
        elim (Option-cases (get lease.capability_id (served_plugins h.plugins []))) [
          | inl e ↦
              rw (serve, e) (rejected-Cleaned "capability is not served by this worker" a free)
          | inr (plugin, e) ↦
              rw (serve, e) (serve_validated-Cleaned plugin (plugin.validate lease) a free)
        ]
