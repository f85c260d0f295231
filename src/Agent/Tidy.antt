-- ===== src/Agent/Tidy.antt =====
-- The state that `run_forever` leaves behind.
use outbound_gpu_worker_pool.Base.{
  ℕ, zero, suc, inl, inr, Bool, true, false, none, some, nat_eq, Bool-cases,
}
use outbound_gpu_worker_pool.Contracts.{http_error, Result, ok, err}
use outbound_gpu_worker_pool.Agent.{
  ◌>>=◌, lease_call, lift, AgentOutcome, idle, HttpReply, Host, AgentState,
}
use outbound_gpu_worker_pool.Agent.Calls.{status_result, post, heartbeat}
use outbound_gpu_worker_pool.Agent.Jobs.{ignoring_http, serve}
use outbound_gpu_worker_pool.Agent.Talking.{heartbeat-keeps}
use outbound_gpu_worker_pool.Agent.Loop.{
  lease_request, leased, run_once, is_idle, pause, look, Ended, next_round, after_round, after_look,
  rounds, detached, run_forever,
}
use outbound_gpu_worker_pool.Agent.Cleanup.{
  IsIdle, IsCleaned, Idle→Cleaned, continue-Cleaned, IsIdle-IsTalkative, serve-Cleaned,
}
use outbound_gpu_worker_pool.Agent.Grants.{read_lease}

module _ (h : Host) where
  leased-Cleaned : (reply : HttpReply) (a : AgentState) → IsIdle a → IsCleaned (leased h reply a)
  unfolding leased
  leased-Cleaned reply a free = elim (Bool-cases (nat_eq reply.status_code 204)) [
    | inl e ↦ rw (leased, e) free
    | inr e ↦
        rw (leased, e)
          (continue-Cleaned (status_result reply) a
            (λ _. lift (read_lease h.lib reply.body) >>= serve h) free
            (λ _.
              continue-Cleaned (read_lease h.lib reply.body) a (serve h) free
                (λ lease. serve-Cleaned h lease a free)))
  ]

  run_once-Cleaned : (a : AgentState) → IsIdle a → IsCleaned (run_once h a)
  unfolding run_once
  run_once-Cleaned a free =
      let beaten = heartbeat h false a in
      let kept = heartbeat-keeps IsIdle IsIdle-IsTalkative h false a free in
      let asked = post h (lease_call (lease_request h)) beaten.1 in
      continue-Cleaned beaten.0 beaten.1 (λ _. post h (lease_call (lease_request h)) >>= leased h)
        kept
        (λ _.
          continue-Cleaned asked.0 asked.1 (leased h) kept
            (λ reply. leased-Cleaned reply asked.1 kept))

  ignored-Cleaned :
      {A : Type 0} (x : A) (r : Result A) (a : AgentState)
      → IsCleaned (r, a)
      → IsCleaned (ignoring_http h x (r, a))
  ignored-Cleaned x (ok y) a clean = clean
  ignored-Cleaned x (err (http_error m)) a clean = clean
  ignored-Cleaned x (err e) a clean = clean

  abbrev pub LeavesClean : Ended h → Type 0
  LeavesClean none = Unit
  LeavesClean (some (r, a)) = IsCleaned (r, a)

  next_round-Clean :
      (again : ℕ → AgentState → Ended h) (backoff : ℕ) (a : AgentState) (is_paused : Bool)
      → ((b : ℕ) (a1 : AgentState) → IsIdle a1 → LeavesClean (again b a1))
      → IsIdle a
      → LeavesClean (next_round h again backoff a is_paused)
  next_round-Clean again backoff a true rest free = rest _ (pause h backoff a) free
  next_round-Clean again backoff a false rest free = rest _ a free

  after_round-Clean :
      (again : ℕ → AgentState → Ended h) (backoff : ℕ) (r : Result AgentOutcome) (a : AgentState)
      → ((b : ℕ) (a1 : AgentState) → IsIdle a1 → LeavesClean (again b a1))
      → IsCleaned (r, a)
      → LeavesClean (after_round h again backoff (r, a))
  after_round-Clean again backoff (ok o) a rest clean =
      next_round-Clean again backoff a (is_idle h o) rest clean
  after_round-Clean again backoff (err e) a rest clean = clean

  after_look-Clean :
      (again : ℕ → AgentState → Ended h) (backoff : ℕ) (stops : Bool) (a : AgentState)
      → ((b : ℕ) (a1 : AgentState) → IsIdle a1 → LeavesClean (again b a1))
      → IsIdle a
      → LeavesClean (after_look h again backoff (stops, a))
  after_look-Clean again backoff true a rest free =
      let beat = heartbeat h true a in
      ignored-Cleaned tt beat.0 beat.1
        (Idle→Cleaned beat.0 beat.1 (heartbeat-keeps IsIdle IsIdle-IsTalkative h true a free))
  after_look-Clean again backoff false a rest free =
      let once = run_once h a in
      let round = ignoring_http h idle once in
      after_round-Clean again backoff round.0 round.1 rest
        (ignored-Cleaned idle once.0 once.1 (run_once-Cleaned a free))

  rounds-Clean :
      (fuel backoff : ℕ) (a : AgentState) → IsIdle a → LeavesClean (rounds h fuel backoff a)
  unfolding rounds
  rounds-Clean zero backoff a free = tt
  rounds-Clean (suc fuel) backoff a free =
      after_look-Clean (λ b a1. rounds h fuel b a1) backoff (h.stopped a.looks) (look h a).1
        (λ b a1. rounds-Clean fuel b a1) free

  detached-Clean : (end : Ended h) → LeavesClean end → LeavesClean (detached h end)
  detached-Clean none clean = clean
  detached-Clean (some (r, a)) clean = clean

  -- An agent that starts with no busy job and no workspace ends `run_forever` with no busy job,
  -- whatever the coordinator, the transfer and the plugins did, and with no workspace either, where
  -- it returns or the error is an `httpx.HTTPError`.
  pub run_forever-Clean :
      (fuel : ℕ) (a : AgentState) → IsIdle a → LeavesClean (run_forever h fuel a)
  unfolding run_forever
  run_forever-Clean fuel a free =
      detached-Clean (rounds h fuel h.min_poll (record a { attached = true }))
        (rounds-Clean fuel h.min_poll (record a { attached = true }) free)
