-- ===== src/Service/Views.antt =====
-- The methods of `WorkerPoolService` that hosts call: submission, and views of jobs, workers and the
-- queue.
use outbound_gpu_worker_pool.Base.{
  ℕ, ◌+◌, ◌-◌, String, Bool, true, false, not, ◌&&◌, ◌||◌, Option, none, some, List, [], ◌∷◌, map,
  ltb, leb, if◌then◌else◌, is_some, Dict, get, put,
}
use outbound_gpu_worker_pool.Contracts.{
  capability_ids, ok, pool_worker_online_window_seconds, seconds, int, dict, Fields, end, field,
  JobSubmission, JobRecord, QueueDepth, WorkerStatus, draining, WorkerRecord, PoolWorkerStatus,
  busy, pool_draining, online, offline, PoolWorkerView, AuditEvent, CapabilitySchema,
}
use outbound_gpu_worker_pool.JobStore.{submit, get_job, list_for_tenant, cancel}
use outbound_gpu_worker_pool.JobStore.Settling.{queue_depth}
use outbound_gpu_worker_pool.Registry.{is_revoked, list_workers, list_by_tenant}
use outbound_gpu_worker_pool.Audit.{list_for_job}
use outbound_gpu_worker_pool.Service.{
  ◌>>◌, ◌>>=◌, Action, return, lift, gets, read_clock, on_jobs, Settings, Pool,
}
use outbound_gpu_worker_pool.Service.Qualification.{unqualified_reason}
use outbound_gpu_worker_pool.Service.Admission.{refuse}

abbrev pub without_claim_token : JobRecord → JobRecord
without_claim_token r = record r { claim_token = none }

abbrev is_draining_worker : WorkerStatus → Bool
is_draining_worker draining = true
is_draining_worker _ = false

-- The ladder of `worker_views`, for a worker heard from `age` microseconds ago.
unfoldable pub view_status : WorkerRecord → ℕ → ℕ → PoolWorkerStatus
view_status w age online_window =
    if is_some w.busy_job_id
    then busy
    else if is_draining_worker w.status
    then pool_draining
    else if leb age (seconds online_window)
    then online
    else offline

abbrev view_of : WorkerRecord → ℕ → ℕ → ℕ → PoolWorkerView
view_of w seen age online_window = record {
  worker_id = w.worker_id;
  status = view_status w age online_window;
  last_heartbeat_at = some seen;
  capability_ids = capability_ids w;
  gpus = w.gpus;
  busy_job_id = w.busy_job_id;
  is_draining = is_draining_worker w.status;
  tenant_id = w.tenant_id;
  gpu_model = w.gpu_model;
  vram_mb = w.vram_mb;
  runtime_versions = w.runtime_versions;
}

-- One round of the loop: a revoked worker has no row, nor one not heard from in the window. A
-- heartbeat later than the clock has age 0 here, a negative one there: both are below every window.
unfoldable pub view_row : ℕ → ℕ → ℕ → WorkerRecord → Option PoolWorkerView
unfolding view_status
view_row now online_window visibility_window w = elim w.last_heartbeat_at [
  | none ↦ none
  | some seen ↦
      if is_revoked w.status || ltb (seconds visibility_window) (now - seen)
      then none
      else some (view_of w seen (now - seen) online_window)
]

abbrev cons_some {ℓ} : {A : Type ℓ} → Option A → List A → List A
cons_some none xs = xs
cons_some (some x) xs = x ∷ xs

unfoldable pub view_rows : ℕ → ℕ → ℕ → List WorkerRecord → List PoolWorkerView
unfolding view_row
view_rows now online_window visibility_window [] = []
view_rows now online_window visibility_window (w ∷ ws) =
    cons_some (view_row now online_window visibility_window w)
      (view_rows now online_window visibility_window ws)

abbrev rows_for : Option String → Pool → List WorkerRecord
rows_for none p = list_workers p.registry
rows_for (some tenant) p = list_by_tenant (some tenant) p.registry

-- `online[c] = online.get(c, 0) + 1`
abbrev or_zero : Option ℕ → ℕ
or_zero none = 0
or_zero (some n) = n

unfoldable pub count_ids : List String → Dict ℕ → Dict ℕ
count_ids [] d = d
count_ids (c ∷ cs) d = count_ids cs (put c (or_zero (get c d) + 1) d)

abbrev pub is_online : ℕ → WorkerRecord → Bool
is_online now w = elim w.last_heartbeat_at [
  | none ↦ false
  | some seen ↦
      not (is_revoked w.status) && leb (now - seen) (seconds pool_worker_online_window_seconds)
]

unfoldable pub count_online : ℕ → List WorkerRecord → Dict ℕ → Dict ℕ
unfolding count_ids
count_online now [] d = d
count_online now (w ∷ ws) d =
    count_online now ws (if is_online now w then count_ids (capability_ids w) d else d)

-- `schema.input_schema` and the version, for each capability that the pool publishes.
abbrev schema_fields : Dict CapabilitySchema → Fields
schema_fields [] = end
schema_fields ((c, x) ∷ d) =
    field c
      (dict (
        field "contract_version" (int x.contract_version)
          (field "input_schema" (dict x.input_schema) end)))
      (schema_fields d)

unfoldable pub capabilities_schema : Dict CapabilitySchema → Fields
capabilities_schema schemas = field "capabilities" (dict (schema_fields schemas)) end

module _ (s : Settings) where
  unfoldable pub worker_views : Option String → ℕ → ℕ → Action (List PoolWorkerView)
  unfolding view_rows
  worker_views tenant online_window visibility_window = do
    now ← read_clock s
    rows ← gets (rows_for tenant)
    return (view_rows now online_window visibility_window rows)

  unfoldable pub pool_depth : Action QueueDepth
  unfolding count_online
  pool_depth = do
    depth ← gets (λ p. queue_depth p.jobs)
    now ← read_clock s
    rows ← gets (λ p. list_workers p.registry)
    return (record depth { online_workers_by_capability = count_online now rows [] })

  unfoldable pub audit_for_job : String → Action (List AuditEvent)
  audit_for_job job_id = gets (λ p. list_for_job job_id p.audit)

  unfoldable pub submit_job : JobSubmission → Action JobRecord
  submit_job x = do
    refuse (unqualified_reason s.profiles (x.capability_id ∷ []) x.requirements.runtime_versions)
    answer ← on_jobs s (λ now. submit s.lib x now)
    result ← lift answer
    return (without_claim_token result.submitted)

  unfoldable pub find_job : String → Action (Option JobRecord)
  find_job job_id p = (ok (hidden (get_job job_id p.jobs)), p)
    where
      hidden : Option JobRecord → Option JobRecord
      hidden none = none
      hidden (some r) = some (without_claim_token r)

  unfoldable pub cancel_job : String → Action Bool
  cancel_job job_id = on_jobs s (λ now. cancel job_id now)

  unfoldable pub list_jobs : String → Action (List JobRecord)
  list_jobs tenant = gets (λ p. map without_claim_token (list_for_tenant tenant p.jobs))
