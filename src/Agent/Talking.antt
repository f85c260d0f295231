-- ===== src/Agent/Talking.antt =====
-- A property of the state that requests and samples keep is kept by the tasks that only talk.
use outbound_gpu_worker_pool.Base.{
  ℕ, String, inl, inr, Bool, false, List, [], ◌∷◌, Bool-cases, length,
}
use outbound_gpu_worker_pool.Contracts.{
  plugin_request_rejected, http_error, Result, ok, err, JobFailureCode, unsupported_operation,
  LeaseGrant,
}
use outbound_gpu_worker_pool.Plugins.{PluginOutput}
use outbound_gpu_worker_pool.Agent.{
  ◌>>◌, ◌>>=◌, heartbeat_call, job_heartbeat_call, complete_call, fail_call, release_call, Task,
  continue, done, lift, type_name, AgentOutcome, completed_outcome, failed_outcome, released,
  rejected_outcome, Call, HttpReply, Host, AgentState,
}
use outbound_gpu_worker_pool.Sampler.{Sampler}
use outbound_gpu_worker_pool.Agent.Calls.{
  status_result, raise_for_status, post, sample_gpus, heartbeat, fail_request, fail, reject,
  release_request, release,
}
use outbound_gpu_worker_pool.Agent.Jobs.{
  ignoring_http, progress_request, progress_post, job_heartbeats, handled,
}
use outbound_gpu_worker_pool.Agent.Publishing.{
  completion_reason, served_by, not_accepted, published, output_file, complete_request,
  upload_output, attest, publish_file, publish,
}

pub record IsTalkative (P : AgentState → Type 0) : Type 0 where
  pub keeps_calls : (cs : List Call) (a : AgentState) → P a → P (record a { calls = cs })
  pub keeps_sampler : (g : Sampler) (a : AgentState) → P a → P (record a { sampler = g })

module _ (P : AgentState → Type 0) (talks : IsTalkative P) (h : Host) where
  pub continue-keeps :
      {A B : Type 0} (r : Result A) (a : AgentState) (f : A → Task B)
      → P a
      → ((x : A) → P (f x a).1)
      → P (continue (r, a) f).1
  continue-keeps (err e) a f p next = p
  continue-keeps (ok x) a f p next = next x

  pub post-keeps : (c : Call) (a : AgentState) → P a → P (post h c a).1
  post-keeps c a p = talks.keeps_calls (c ∷ a.calls) a p

  pub heartbeat-keeps : (drains : Bool) (a : AgentState) → P a → P (heartbeat h drains a).1
  unfolding heartbeat sample_gpus
  heartbeat-keeps drains a p =
      let sampled = talks.keeps_sampler _ a p in
      let posted = talks.keeps_calls (heartbeat_call _ ∷ a.calls) _ sampled in
      continue-keeps (h.http (length a.calls) _) _ raise_for_status posted (λ r. posted)

  pub ignoring_http-keeps :
      {A : Type 0} (x : A) (r : Result A) (a : AgentState) → P a → P (ignoring_http h x (r, a)).1
  ignoring_http-keeps x (ok y) a p = p
  ignoring_http-keeps x (err (http_error m)) a p = p
  ignoring_http-keeps x (err e) a p = p

  module _ (lease : LeaseGrant) where
    pub fail-keeps :
        (reason : String) (retryable : Bool) (code : JobFailureCode) (a : AgentState)
        → P a
        → P (fail h lease reason retryable code a).1
    unfolding fail
    fail-keeps reason retryable code a p =
        let c = fail_call lease.job_id (fail_request h lease reason retryable code) in
        continue-keeps (h.http (length a.calls) c) (post h c a).1 (λ _. done tt) (post-keeps c a p)
          (λ _. post-keeps c a p)

    pub reject-keeps : (reason : String) (a : AgentState) → P a → P (reject h lease reason a).1
    unfolding reject
    reject-keeps reason a p =
        let f = fail h lease reason false unsupported_operation a in
        let kept = fail-keeps reason false unsupported_operation a p in
        continue-keeps f.0 f.1 (λ _. done rejected_outcome) kept (λ _. kept)

    pub release-keeps : (reason : String) (a : AgentState) → P a → P (release h lease reason a).1
    unfolding release
    release-keeps reason a p =
        let c = release_call lease.job_id (release_request h lease reason) in
        continue-keeps (h.http (length a.calls) c) (post h c a).1 (λ _. done released)
          (post-keeps c a p) (λ _. post-keeps c a p)

    pub beaten-keeps : (a : AgentState) → P a → P (ignoring_http h tt (heartbeat h false a)).1
    beaten-keeps a p =
        ignoring_http-keeps tt (heartbeat h false a).0 (heartbeat h false a).1
          (heartbeat-keeps false a p)

    pub told-keeps :
        (percent : ℕ) (a : AgentState)
        → P a
        → P (ignoring_http h tt (progress_post h lease percent a)).1
    told-keeps percent a p =
        let c = job_heartbeat_call lease.job_id (progress_request h lease percent) in
        let kept =
          continue-keeps (h.http (length a.calls) c) (post h c a).1 (λ _. done tt)
            (post-keeps c a p) (λ _. post-keeps c a p) in
        ignoring_http-keeps tt (progress_post h lease percent a).0
          (progress_post h lease percent a).1 kept

    pub job_heartbeats-keeps :
        (percents : List ℕ) (a : AgentState) → P a → P (job_heartbeats h lease percents a).1
    unfolding job_heartbeats
    job_heartbeats-keeps [] a p = p
    job_heartbeats-keeps (percent ∷ percents) a p =
        let told = ignoring_http h tt (progress_post h lease percent a) in
        let beaten = ignoring_http h tt (heartbeat h false told.1) in
        let kept = told-keeps percent a p in
        let kept2 = beaten-keeps told.1 kept in
        continue-keeps told.0 told.1
          (λ _.
            (λ a2. ignoring_http h tt (heartbeat h false a2)) >> job_heartbeats h lease percents)
          kept
          (λ _.
            continue-keeps beaten.0 beaten.1 (λ _. job_heartbeats h lease percents) kept2
              (λ _. job_heartbeats-keeps percents beaten.1 kept2))

    pub published-keeps : (reply : HttpReply) (a : AgentState) → P a → P (published h reply a).1
    unfolding published
    published-keeps reply a p = elim (Bool-cases (not_accepted h reply.status_code)) [
      | inl e ↦
          rw (published, e)
            (continue-keeps (completion_reason h.lib reply.body) a (λ _. done failed_outcome) p
              (λ _. p))
      | inr e ↦
          rw (published, e)
            (continue-keeps (status_result reply) a (λ _. done completed_outcome) p (λ _. p))
    ]

    pub publish-keeps :
        (output : PluginOutput) (a : AgentState) → P a → P (publish h lease output a).1
    unfolding publish
    publish-keeps output a p =
        continue-keeps (output_file h lease output a).0 a (publish_file h lease output) p (λ file.
          continue-keeps (upload_output h lease output file) a
            (λ _. lift (served_by h lease) >>= attest h lease output file) p
            (λ _. continue-keeps (served_by h lease) a (attest h lease output file) p (λ c.
              let q = complete_call lease.job_id (complete_request h lease output c file) in
              continue-keeps (h.http (length a.calls) q) (post h q a).1 (published h)
                (post-keeps q a p) (λ reply. published-keeps reply _ (post-keeps q a p)))))

    pub handled-keeps :
        (r : Result AgentOutcome) (a : AgentState) → P a → P (handled h lease (r, a)).1
    unfolding handled
    handled-keeps (ok o) a p = p
    handled-keeps (err (plugin_request_rejected m)) a p = reject-keeps m a p
    handled-keeps (err e) a p = release-keeps (type_name e) a p
