-- ===== src/Agent/Ending.antt =====
-- The loop of the agent ends once it is asked to stop.
use outbound_gpu_worker_pool.Base.{
  ℕ, zero, suc, ◌+◌, ◌-◌, ◌≤◌, ◌<◌, ◌≡◌, refl, inl, inr, Bool, true, false, Option, none, some,
  List, ◌∷◌, arith, Bool-cases, length,
}
use outbound_gpu_worker_pool.Contracts.{http_error, Result, ok, err}
use outbound_gpu_worker_pool.Routes.Requests.{WorkerHeartbeatRequest}
use outbound_gpu_worker_pool.Agent.{
  heartbeat_call, continue, AgentOutcome, idle, Call, HttpReply, Host, AgentState,
}
use outbound_gpu_worker_pool.Agent.Calls.{raise_for_status, sample_gpus, heartbeat}
use outbound_gpu_worker_pool.Agent.Jobs.{ignoring_http}
use outbound_gpu_worker_pool.Agent.Loop.{
  run_once, is_idle, pause, look, Ended, next_round, after_round, rounds, detached, run_forever,
}
use outbound_gpu_worker_pool.Agent.Stable.{round-keeps, IsStable}

looks-IsStable : (n : ℕ) → IsStable (λ a. n ≤ a.looks)
looks-IsStable n = record {
  talks = record { keeps_calls = λ cs a p. p; keeps_sampler = λ g a p. p };
  keeps_busy = λ b a p. p;
  keeps_files = λ ws a p. p;
  keeps_looks = λ a p. omega (arith, p);
}

-- The event stays set from the n-th look on.
abbrev pub StopsFrom : Host → ℕ → Type 0
StopsFrom h n = (k : ℕ) → n ≤ k → h.stopped k ≡ true

-- The last request is a heartbeat that says that the worker drains.
abbrev pub HasDrained : AgentState → Type 0
HasDrained a =
    (q : WorkerHeartbeatRequest) × (before : List Call) × (a.calls ≡ heartbeat_call q ∷ before)
    × (q.draining ≡ true)

-- The loop has ended, and where it returns the worker has drained.
abbrev pub HasEnded : Option (Result (Unit {0}) × AgentState) → Type 0
HasEnded none = ⊥
HasEnded (some (ok u, a)) = HasDrained a
HasEnded (some (err e, a)) = Unit

module _ (h : Host) where
  continue-Drained :
      (r : Result HttpReply) (a : AgentState)
      → HasDrained a
      → HasDrained (continue (r, a) raise_for_status).1
  continue-Drained (err e) a d = d
  continue-Drained (ok reply) a d = d

  heartbeat-Drained : (a : AgentState) → HasDrained (heartbeat h true a).1
  unfolding heartbeat sample_gpus
  heartbeat-Drained a = continue-Drained (h.http (length a.calls) _) _ (_, a.calls, refl, refl)

  ended_ok :
      (r : Result (Unit {0})) (a : AgentState)
      → HasDrained a
      → HasEnded (some (ignoring_http h tt (r, a)))
  ended_ok (ok u) a d = d
  ended_ok (err (http_error m)) a d = d
  ended_ok (err e) a d = tt

  next_round-Ended :
      (again : ℕ → AgentState → Ended h) (backoff : ℕ) (a : AgentState) (is_paused : Bool)
      → ((b : ℕ) → HasEnded (again b (pause h backoff a)))
      → HasEnded (again h.min_poll a)
      → HasEnded (next_round h again backoff a is_paused)
  next_round-Ended again backoff a true paused ready = paused _
  next_round-Ended again backoff a false paused ready = ready

  after_round-Ended :
      (again : ℕ → AgentState → Ended h) (backoff : ℕ) (r : Result AgentOutcome) (a : AgentState)
      → ((b : ℕ) → HasEnded (again b (pause h backoff a)))
      → HasEnded (again h.min_poll a)
      → HasEnded (after_round h again backoff (r, a))
  after_round-Ended again backoff (err e) a paused ready = tt
  after_round-Ended again backoff (ok o) a paused ready =
      next_round-Ended again backoff a (is_idle h o) paused ready

  -- The event is not set yet: it will be looked at once less.
  less_left :
      (n looks later fuel : ℕ)
      → StopsFrom h n
      → h.stopped looks ≡ false
      → looks + 1 ≤ later
      → n - looks < suc fuel
      → n - later < fuel
  less_left n looks later fuel stops e more enough = ground (arith, e, more, enough, stops looks)

  rounds-Ended :
      (n : ℕ)
      → StopsFrom h n
      → (fuel backoff : ℕ) (a : AgentState) → n - a.looks < fuel
      → HasEnded (rounds h fuel backoff a)
  unfolding rounds
  rounds-Ended n stops zero backoff a enough = absurd (omega (arith, enough))
  rounds-Ended n stops (suc fuel) backoff a enough = elim (Bool-cases (h.stopped a.looks)) [
    | inl e ↦
        rw (rounds, e)
          (ended_ok (heartbeat h true (look h a).1).0 (heartbeat h true (look h a).1).1
            (heartbeat-Drained (look h a).1))
    | inr e ↦
        let round = ignoring_http h idle (run_once h (look h a).1) in
        let more = round-keeps _ (looks-IsStable (a.looks + 1)) h (look h a).1 (omega arith) in
        let less = less_left n a.looks round.1.looks fuel stops e more enough in
        rw (rounds, e)
          (after_round-Ended (λ b a1. rounds h fuel b a1) backoff round.0 round.1
            (λ b. rounds-Ended n stops fuel b (pause h backoff round.1) less)
            (rounds-Ended n stops fuel h.min_poll round.1 less))
  ]

  -- What `run_forever` ends with: it has let go of the event.
  abbrev pub HasFinished : Ended h → Type 0
  HasFinished none = ⊥
  HasFinished (some (r, a)) = HasEnded (some (r, a)) × (a.attached ≡ false)

  detached-Finished : (end : Ended h) → HasEnded end → HasFinished (detached h end)
  detached-Finished none ended = absurd ended
  detached-Finished (some (ok u, a)) ended = (ended, refl)
  detached-Finished (some (err e, a)) ended = (ended, refl)

  -- Where the stop event stays set from its `n`-th look on, `run_forever` ends, however the
  -- coordinator, the transfer and the plugins answer: as many rounds as there are looks left, and one
  -- more, are enough. It lets go of the event; and where it returns, its last request is a heartbeat
  -- that says that the worker drains.
  pub run_forever-Finished :
      (n : ℕ)
      → StopsFrom h n
      → (fuel : ℕ) (a : AgentState) → n - a.looks < fuel
      → HasFinished (run_forever h fuel a)
  unfolding run_forever
  run_forever-Finished n stops fuel a enough =
      detached-Finished (rounds h fuel h.min_poll (record a { attached = true }))
        (rounds-Ended n stops fuel h.min_poll (record a { attached = true }) enough)
