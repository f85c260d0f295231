-- ===== src/Agent/Settled.antt =====
-- What an outcome of the agent says of its requests, and that rejecting, releasing and publishing
-- keep to it.
use outbound_gpu_worker_pool.Base.{
  ℕ, String, ◌≡◌, refl, sym, ap, ◌∙◌, inl, inr, Bool, true, false, List, [], ◌∷◌, ◌++◌,
  append_assoc, arith, Bool-cases, length, all,
}
use outbound_gpu_worker_pool.Contracts.{Result, ok, err, unsupported_operation, LeaseGrant}
use outbound_gpu_worker_pool.Routes.Manifests.{CompleteRequest}
use outbound_gpu_worker_pool.Agent.{
  ◌>>=◌, complete_call, fail_call, release_call, Task, continue, done, lift, AgentOutcome, idle,
  completed_outcome, failed_outcome, released, rejected_outcome, Call, HttpReply, Host, AgentState,
}
use outbound_gpu_worker_pool.Agent.Calls.{
  is_success, status_result, fail_request, fail, reject, release_request, release,
}
use outbound_gpu_worker_pool.Plugins.{PluginOutput}
use outbound_gpu_worker_pool.Agent.Requests.{
  About, IsBeat, Added, Since, Since-cons, All-append, Since-beats, sent,
}
use outbound_gpu_worker_pool.Agent.Publishing.{
  completion_reason, served_by, not_accepted, published, output_file, complete_request,
  upload_output, attest, publish_file, publish,
}

module _ (h : Host) (lease : LeaseGrant) where
  -- The last request is one to settle the job, but for heartbeats of the job's task.
  abbrev pub Ends : List Call → List Call → Call → List Call → Type 0
  Ends old calls c before = Since lease old before × Added (IsBeat lease) (c ∷ before) calls

  -- The job is last settled by a completion, and the coordinator answered it with a status that
  -- passes.
  abbrev pub Completes : (ℕ → Bool) → List Call → List Call → Type 0
  Completes passes old calls =
      (before : List Call) × (q : CompleteRequest) × (reply : HttpReply) × Ends old calls
        (complete_call lease.job_id q) before
      × (q.claim_token ≡ lease.claim_token)
      × (h.http (length before) (complete_call lease.job_id q) ≡ ok reply)
      × (passes reply.status_code ≡ true)

  -- What an outcome says of the requests since `old`.
  abbrev pub Settled : List Call → Result AgentOutcome → List Call → Type 0
  Settled old (err e) calls = Since lease old calls
  Settled old (ok idle) calls = ⊥
  Settled old (ok completed_outcome) calls = Completes is_success old calls
  Settled old (ok failed_outcome) calls = Completes (not_accepted h) old calls
  Settled old (ok rejected_outcome) calls =
      (before : List Call) × (reason : String) × Ends old calls
        (fail_call lease.job_id (fail_request h lease reason false unsupported_operation)) before
  Settled old (ok released) calls =
      (before : List Call) × (reason : String) × Ends old calls
        (release_call lease.job_id (release_request h lease reason)) before

  -- Nothing but heartbeats follows a request that has just been sent.
  Ends-new :
      (old before : List Call) (c : Call) → Since lease old before → Ends old (c ∷ before) c before
  Ends-new old before c since = (since, ([], refl, tt))

  Ends→Since :
      (old calls : List Call) (c : Call) (before : List Call)
      → About lease c
      → Ends old calls c before
      → Since lease old calls
  Ends→Since old calls c before about (since, beats) =
      Since-beats lease old (c ∷ before) calls (Since-cons lease old before c about since) beats

  Ends-beats :
      (old calls new : List Call) (c : Call) (before : List Call)
      → Added (IsBeat lease) calls new
      → Ends old calls c before
      → Ends old new c before
  Ends-beats old calls new c before (late, q, few) (since, (beats, e, all)) = (
    since,
    (
      late ++ beats,
      q ∙ ap (λ l. late ++ l) e ∙ sym (append_assoc late beats (c ∷ before)),
      All-append (IsBeat lease) late beats few all,
    ),
  )

  Completes→Since :
      (passes : ℕ → Bool) (old calls : List Call)
      → Completes passes old calls
      → Since lease old calls
  Completes→Since passes old calls (before, q, reply, ends, token, answer, passed) =
      Ends→Since old calls _ before (refl, token) ends

  pub Settled→Since :
      (old : List Call) (r : Result AgentOutcome) (calls : List Call)
      → Settled old r calls
      → Since lease old calls
  Settled→Since old (err e) calls s = s
  Settled→Since old (ok idle) calls s = absurd s
  Settled→Since old (ok completed_outcome) calls s = Completes→Since is_success old calls s
  Settled→Since old (ok failed_outcome) calls s = Completes→Since (not_accepted h) old calls s
  Settled→Since old (ok rejected_outcome) calls (before, reason, ends) =
      Ends→Since old calls _ before (refl, refl) ends
  Settled→Since old (ok released) calls (before, reason, ends) =
      Ends→Since old calls _ before (refl, refl) ends

  Completes-beats :
      (passes : ℕ → Bool) (old calls new : List Call)
      → Added (IsBeat lease) calls new
      → Completes passes old calls
      → Completes passes old new
  Completes-beats passes old calls new beats (before, q, reply, ends, token, answer, passed) =
      (before, q, reply, Ends-beats old calls new _ before beats ends, token, answer, passed)

  -- Further heartbeats change nothing of what an outcome says.
  pub Settled-beats :
      (old : List Call) (r : Result AgentOutcome) (calls new : List Call)
      → Added (IsBeat lease) calls new
      → Settled old r calls
      → Settled old r new
  Settled-beats old (err e) calls new beats s = Since-beats lease old calls new s beats
  Settled-beats old (ok idle) calls new beats s = s
  Settled-beats old (ok completed_outcome) calls new beats s =
      Completes-beats is_success old calls new beats s
  Settled-beats old (ok failed_outcome) calls new beats s =
      Completes-beats (not_accepted h) old calls new beats s
  Settled-beats old (ok rejected_outcome) calls new beats (before, reason, ends) =
      (before, reason, Ends-beats old calls new _ before beats ends)
  Settled-beats old (ok released) calls new beats (before, reason, ends) =
      (before, reason, Ends-beats old calls new _ before beats ends)

  abbrev pub SettledBy : List Call → Result AgentOutcome × AgentState → Type 0
  SettledBy old (r, a) = Settled old r a.calls

  continue-Settled :
      {A : Type 0} (old : List Call) (r : Result A) (a : AgentState) (f : A → Task AgentOutcome)
      → Since lease old a.calls
      → ((x : A) → r ≡ ok x → SettledBy old (f x a))
      → SettledBy old (continue (r, a) f)
  continue-Settled old (err e) a f since next = since
  continue-Settled old (ok x) a f since next = next x refl

  is_success-status_result :
      (reply : HttpReply) (u : Unit {0})
      → status_result reply ≡ ok u
      → is_success reply.status_code ≡ true
  unfolding status_result
  is_success-status_result reply u e = ground (arith, e)

  pub reject-Settled :
      (old : List Call) (reason : String) (a : AgentState)
      → Since lease old a.calls
      → SettledBy old (reject h lease reason a)
  unfolding reject fail
  reject-Settled old reason a since =
      go (h.http (length a.calls) refused) (Since-cons lease old a.calls refused (refl, refl) since)
    where
      refused : Call
      refused = fail_call lease.job_id (fail_request h lease reason false unsupported_operation)

      go :
          (r : Result HttpReply)
          → Since lease old (sent refused a).calls
          → SettledBy old
              (continue (continue (r, sent refused a) (λ _. done tt)) (λ _. done rejected_outcome))
      go (err e) told = told
      go (ok reply) all = (a.calls, reason, Ends-new old a.calls _ since)

  pub release-Settled :
      (old : List Call) (reason : String) (a : AgentState)
      → Since lease old a.calls
      → SettledBy old (release h lease reason a)
  unfolding release
  release-Settled old reason a since =
      continue-Settled old (h.http (length a.calls) _)
        (sent (release_call lease.job_id (release_request h lease reason)) a) (λ _. done released)
        (Since-cons lease old a.calls _ (refl, refl) since)
        (λ reply e. (a.calls, reason, Ends-new old a.calls _ since))

  published-Settled :
      (old : List Call) (q : CompleteRequest) (reply : HttpReply) (a : AgentState)
      → Since lease old a.calls
      → q.claim_token ≡ lease.claim_token
      → h.http (length a.calls) (complete_call lease.job_id q) ≡ ok reply
      → SettledBy old (published h reply (sent (complete_call lease.job_id q) a))
  unfolding published
  published-Settled old q reply a since token answer =
      elim (Bool-cases (not_accepted h reply.status_code)) [
        | inl e ↦
            rw (published, e)
              (continue-Settled old (completion_reason h.lib reply.body)
                (sent (complete_call lease.job_id q) a) (λ _. done failed_outcome)
                (Since-cons lease old a.calls _ (refl, token) since)
                (λ _ _. (a.calls, q, reply, Ends-new old a.calls _ since, token, answer, e)))
        | inr e ↦
            rw (published, e)
              (continue-Settled old (status_result reply) (sent (complete_call lease.job_id q) a)
                (λ _. done completed_outcome) (Since-cons lease old a.calls _ (refl, token) since)
                (λ u good. (
                  a.calls,
                  q,
                  reply,
                  Ends-new old a.calls _ since,
                  token,
                  answer,
                  is_success-status_result reply u good,
                )))
      ]

  pub publish-Settled :
      (old : List Call) (output : PluginOutput) (a : AgentState)
      → Since lease old a.calls
      → SettledBy old (publish h lease output a)
  unfolding publish
  publish-Settled old output a since =
      continue-Settled old (output_file h lease output a).0 a (publish_file h lease output) since
        (λ file _. publish_file-Settled file)
    where
      publish_file-Settled : (file : List ℕ) → SettledBy old (publish_file h lease output file a)
      publish_file-Settled file =
          continue-Settled old (upload_output h lease output file) a
            (λ _. lift (served_by h lease) >>= attest h lease output file) since
            (λ _ _.
              continue-Settled old (served_by h lease) a (attest h lease output file) since (λ c _.
                continue-Settled old
                  (h.http (length a.calls)
                    (complete_call lease.job_id (complete_request h lease output c file)))
                  (sent (complete_call lease.job_id (complete_request h lease output c file)) a)
                  (published h)
                  (Since-cons lease old a.calls (complete_call _ _) (refl, refl) since)
                  (λ reply answer. published-Settled old _ reply a since refl answer)))
