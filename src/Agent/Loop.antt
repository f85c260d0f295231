-- ===== src/Agent/Loop.antt =====
-- `run_once` and `run_forever` of agent.py.
use outbound_gpu_worker_pool.Base.{
  ℕ, zero, suc, ◌+◌, ◌*◌, ◌/◌, min, Bool, true, false, Option, none, some, ◌∷◌, nat_eq, length, pos,
  keys,
}
use outbound_gpu_worker_pool.Contracts.{Result, ok, err}
use outbound_gpu_worker_pool.Routes.Requests.{LeaseRequest}
use outbound_gpu_worker_pool.Agent.{
  ◌>>◌, ◌>>=◌, lease_call, Task, done, lift, AgentOutcome, idle, HttpReply, Host, AgentState,
}
use outbound_gpu_worker_pool.Agent.Calls.{
  status_result, raise_for_status, capabilities, post, heartbeat,
}
use outbound_gpu_worker_pool.Agent.Jobs.{ignoring_http, serve}
use outbound_gpu_worker_pool.Agent.Grants.{read_lease}

module _ (h : Host) where
  abbrev pub lease_request : LeaseRequest
  lease_request = record {
    capability_ids = keys (capabilities h);
    lease_seconds = some (pos h.lease_seconds);
  }

  unfoldable pub leased : HttpReply → Task AgentOutcome
  unfolding serve read_lease status_result
  leased r = elim (nat_eq r.status_code 204) [
    | true ↦ done idle
    | false ↦ raise_for_status r >> (lift (read_lease h.lib r.body) >>= serve h)
  ]

  unfoldable pub run_once : Task AgentOutcome
  unfolding heartbeat leased
  run_once = do heartbeat h false; r ← post h (lease_call lease_request); leased r

  abbrev pub is_idle : AgentOutcome → Bool
  is_idle idle = true
  is_idle _ = false

  -- `sleep(min(max_poll, backoff) * random())`
  abbrev pub pause : ℕ → AgentState → AgentState
  pause backoff a = record a {
    pauses = min h.max_poll backoff * h.random (length a.pauses) / 1000000 ∷ a.pauses;
  }

  abbrev pub look : AgentState → Bool × AgentState
  look a = (h.stopped a.looks, record a { looks = a.looks + 1 })

  -- The draining heartbeat once the loop is over.
  abbrev pub last_heartbeat : Task (Unit {0})
  last_heartbeat a = ignoring_http h tt (heartbeat h true a)

  -- How the loop ended; none where its fuel ran out.
  abbrev pub Ended : Type 0
  Ended = Option (Result (Unit {0}) × AgentState)

  abbrev pub next_round : (ℕ → AgentState → Ended) → ℕ → AgentState → Bool → Ended
  next_round again backoff a true = again (min h.max_poll (backoff * 2)) (pause backoff a)
  next_round again backoff a false = again h.min_poll a

  abbrev pub after_round : (ℕ → AgentState → Ended) → ℕ → Result AgentOutcome × AgentState → Ended
  after_round again backoff (err e, a) = some (err e, a)
  after_round again backoff (ok o, a) = next_round again backoff a (is_idle o)

  abbrev pub after_look : (ℕ → AgentState → Ended) → ℕ → Bool × AgentState → Ended
  after_look again backoff (true, a) = some (last_heartbeat a)
  after_look again backoff (false, a) =
      after_round again backoff (ignoring_http h idle (run_once a))

  -- The loop, on fuel. A round looks at the event once at least.
  unfoldable pub rounds : ℕ → ℕ → AgentState → Ended
  unfolding run_once heartbeat
  rounds zero backoff a = none
  rounds (suc fuel) backoff a = after_look (λ b a1. rounds fuel b a1) backoff (look a)

  -- `finally: self._stop = None`
  abbrev pub detached : Ended → Ended
  detached none = none
  detached (some (r, a)) = some (r, record a { attached = false })

  unfoldable pub run_forever : ℕ → AgentState → Ended
  unfolding rounds
  run_forever fuel a = detached (rounds fuel h.min_poll (record a { attached = true }))
