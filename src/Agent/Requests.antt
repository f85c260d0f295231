-- ===== src/Agent/Requests.antt =====
-- The requests that the tasks of a lease send: all about that lease.
use outbound_gpu_worker_pool.Base.{
  ℕ, ◌≡◌, refl, sym, ap, ◌∙◌, Bool, false, List, [], ◌∷◌, ◌++◌, append_assoc, length, all, All,
}
use outbound_gpu_worker_pool.Contracts.{http_error, Result, ok, err, LeaseGrant}
use outbound_gpu_worker_pool.Agent.{
  ◌>>◌, heartbeat_call, lease_call, job_heartbeat_call, complete_call, fail_call, release_call,
  Task, continue, done, Call, Host, AgentState,
}
use outbound_gpu_worker_pool.Agent.Calls.{raise_for_status, sample_gpus, heartbeat}
use outbound_gpu_worker_pool.Agent.Jobs.{
  ignoring_http, progress_request, progress_post, job_heartbeats,
}

-- A presence heartbeat, or a request on the leased job with its claim token.
abbrev pub About : LeaseGrant → Call → Type 0
About lease (heartbeat_call q) = Unit
About lease (lease_call q) = ⊥
About lease (job_heartbeat_call job_id q) =
    (job_id ≡ lease.job_id) × (q.claim_token ≡ lease.claim_token)
About lease (complete_call job_id q) = (job_id ≡ lease.job_id) × (q.claim_token ≡ lease.claim_token)
About lease (fail_call job_id q) = (job_id ≡ lease.job_id) × (q.claim_token ≡ lease.claim_token)
About lease (release_call job_id q) = (job_id ≡ lease.job_id) × (q.claim_token ≡ lease.claim_token)

-- A heartbeat: of presence, or of the leased job under its claim token.
abbrev pub IsBeat : LeaseGrant → Call → Type 0
IsBeat lease (heartbeat_call q) = Unit
IsBeat lease (job_heartbeat_call job_id q) =
    (job_id ≡ lease.job_id) × (q.claim_token ≡ lease.claim_token)
IsBeat lease c = ⊥

IsBeat→About : (lease : LeaseGrant) (c : Call) → IsBeat lease c → About lease c
IsBeat→About lease (heartbeat_call q) b = tt
IsBeat→About lease (job_heartbeat_call job_id q) b = b
IsBeat→About lease (lease_call q) b = b
IsBeat→About lease (complete_call job_id q) b = absurd b
IsBeat→About lease (fail_call job_id q) b = absurd b
IsBeat→About lease (release_call job_id q) b = absurd b

-- The requests since `old`, all of a kind.
abbrev pub Added : (Call → Type 0) → List Call → List Call → Type 0
Added P old new = (added : List Call) × (new ≡ added ++ old) × All P added

abbrev pub Since : LeaseGrant → List Call → List Call → Type 0
Since lease = Added (About lease)

pub Added-cons :
    (P : Call → Type 0) (old new : List Call) (c : Call)
    → P c
    → Added P old new
    → Added P old (c ∷ new)
Added-cons P old new c holds (added, e, all) = (c ∷ added, ap (λ l. c ∷ l) e, (holds, all))

pub Since-cons :
    (lease : LeaseGrant) (old new : List Call) (c : Call)
    → About lease c
    → Since lease old new
    → Since lease old (c ∷ new)
Since-cons lease = Added-cons (About lease)

pub All-append : (P : Call → Type 0) (xs ys : List Call) → All P xs → All P ys → All P (xs ++ ys)
All-append P [] ys ps qs = qs
All-append P (x ∷ xs) ys ps qs = (ps.0, All-append P xs ys ps.1 qs)

-- Heartbeats are about the lease, so they may follow what is.
pub Since-beats :
    (lease : LeaseGrant) (old calls new : List Call)
    → Since lease old calls
    → Added (IsBeat lease) calls new
    → Since lease old new
Since-beats lease old calls new (added, e, all) (beats, q, few) = (
  beats ++ added,
  q ∙ ap (λ l. beats ++ l) e ∙ sym (append_assoc beats added old),
  All-append (About lease) beats added (about beats few) all,
)
  where
    about : (cs : List Call) → All (IsBeat lease) cs → All (About lease) cs
    about [] ps = tt
    about (c ∷ cs) ps = (IsBeat→About lease c ps.0, about cs ps.1)

-- A request that is sent.
abbrev pub sent : Call → AgentState → AgentState
sent c a = record a { calls = c ∷ a.calls }

-- A kind of request that heartbeats are of.
abbrev IsBeaten : LeaseGrant → (Call → Type 0) → Type 0
IsBeaten lease P = (c : Call) → IsBeat lease c → P c

module _ (h : Host) (lease : LeaseGrant) (P : Call → Type 0) (beats : IsBeaten lease P) where
  -- The step after a task that may have raised.
  continue-Added :
      {A B : Type 0} (old : List Call) (r : Result A) (a : AgentState) (f : A → Task B)
      → Added P old a.calls
      → ((x : A) → Added P old (f x a).1.calls)
      → Added P old (continue (r, a) f).1.calls
  continue-Added old (err e) a f since next = since
  continue-Added old (ok x) a f since next = next x

  heartbeat-Added :
      (old : List Call) (drains : Bool) (a : AgentState)
      → Added P old a.calls
      → Added P old (heartbeat h drains a).1.calls
  unfolding heartbeat sample_gpus
  heartbeat-Added old drains a since =
      continue-Added old (h.http (length a.calls) _) _ raise_for_status
        (Added-cons P old a.calls (heartbeat_call _) (beats (heartbeat_call _) tt) since)
        (λ r. Added-cons P old a.calls (heartbeat_call _) (beats (heartbeat_call _) tt) since)

  ignoring_http-Added :
      {A : Type 0} (old : List Call) (x : A) (r : Result A) (a : AgentState)
      → Added P old a.calls
      → Added P old (ignoring_http h x (r, a)).1.calls
  ignoring_http-Added old x (ok y) a since = since
  ignoring_http-Added old x (err (http_error m)) a since = since
  ignoring_http-Added old x (err e) a since = since

  progress_post-Added :
      (old : List Call) (percent : ℕ) (a : AgentState)
      → Added P old a.calls
      → Added P old (progress_post h lease percent a).1.calls
  progress_post-Added old percent a since =
      continue-Added old (h.http (length a.calls) _)
        (sent (job_heartbeat_call lease.job_id (progress_request h lease percent)) a) (λ _. done tt)
        (Added-cons P old a.calls _ (beats (job_heartbeat_call _ _) (refl, refl)) since)
        (λ _. Added-cons P old a.calls _ (beats (job_heartbeat_call _ _) (refl, refl)) since)

  beaten-Added :
      (old : List Call) (a : AgentState)
      → Added P old a.calls
      → Added P old (ignoring_http h tt (heartbeat h false a)).1.calls
  beaten-Added old a since =
      ignoring_http-Added old tt (heartbeat h false a).0 (heartbeat h false a).1
        (heartbeat-Added old false a since)

  told-Added :
      (old : List Call) (percent : ℕ) (a : AgentState)
      → Added P old a.calls
      → Added P old (ignoring_http h tt (progress_post h lease percent a)).1.calls
  told-Added old percent a since =
      ignoring_http-Added old tt (progress_post h lease percent a).0
        (progress_post h lease percent a).1 (progress_post-Added old percent a since)

  pub job_heartbeats-Added :
      (old : List Call) (percents : List ℕ) (a : AgentState)
      → Added P old a.calls
      → Added P old (job_heartbeats h lease percents a).1.calls
  unfolding job_heartbeats
  job_heartbeats-Added old [] a since = since
  job_heartbeats-Added old (percent ∷ percents) a since =
      let told = ignoring_http h tt (progress_post h lease percent a) in
      let beaten = ignoring_http h tt (heartbeat h false told.1) in
      let since1 = told-Added old percent a since in
      let since2 = beaten-Added old told.1 since1 in
      continue-Added old told.0 told.1
        (λ _. (λ a2. ignoring_http h tt (heartbeat h false a2)) >> job_heartbeats h lease percents)
        since1
        (λ _.
          continue-Added old beaten.0 beaten.1 (λ _. job_heartbeats h lease percents) since2
            (λ _. job_heartbeats-Added old percents beaten.1 since2))

module _ (h : Host) (lease : LeaseGrant) where
  pub job_heartbeats-Since :
      (old : List Call) (percents : List ℕ) (a : AgentState)
      → Since lease old a.calls
      → Since lease old (job_heartbeats h lease percents a).1.calls
  job_heartbeats-Since = job_heartbeats-Added h lease (About lease) (IsBeat→About lease)

  pub job_heartbeats-IsBeat :
      (percents : List ℕ) (a : AgentState)
      → Added (IsBeat lease) a.calls (job_heartbeats h lease percents a).1.calls
  job_heartbeats-IsBeat percents a =
      job_heartbeats-Added h lease (IsBeat lease) (λ c b. b) a.calls percents a ([], refl, tt)
