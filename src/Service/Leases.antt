-- ===== src/Service/Leases.antt =====
-- `WorkerPoolService.lease`.
use outbound_gpu_worker_pool.Base.{
  ℕ, ◌+◌, String, Bool, true, false, not, ◌&&◌, ◌||◌, Option, none, some, List, [], ◌∷◌, is_some,
  filter, contains, ℤ_eq, pos, ℕ_eq, String_eq, Option_eq, List_eq, get,
}
use outbound_gpu_worker_pool.Contracts.{
  capability_ids, worker_not_registered, stale_lease, Result, ok, err, seconds, int, str, end,
  field, JobRecord, WorkerStatus, draining, lease_granted, lease_empty, WorkerRecord,
  WorkerIdentity, AssetGrant, LeaseGrant,
}
use outbound_gpu_worker_pool.JobStore.Leasing.{lease, LeaseCall}
use outbound_gpu_worker_pool.JobStore.Settling.{expire_exhausted}
use outbound_gpu_worker_pool.Assets.{create_read_url, create_output_upload_url, AssetStore}
use outbound_gpu_worker_pool.Service.{
  ◌>>◌, ◌>>=◌, Action, return, raise, lift, gets, read_clock, draw_token, on_jobs, record_event,
  Profiles, Settings,
}
use outbound_gpu_worker_pool.Service.Qualification.{unqualified_reason}
use outbound_gpu_worker_pool.Service.Admission.{approved_enrollment}

abbrev pub is_draining_worker : WorkerStatus → Bool
is_draining_worker draining = true
is_draining_worker _ = false

-- The capabilities asked for that the worker has registered and the pool does not refuse.
unfoldable pub effective_ids : Profiles → WorkerRecord → List String → List String
effective_ids q w asked =
    filter (λ c. contains (capability_ids w) c && not (contains q.refused_capability_ids c)) asked

abbrev pub is_nil {ℓ} : {A : Type ℓ} → List A → Bool
is_nil [] = true
is_nil (x ∷ xs) = false

abbrev pub or_default : Option ℕ → ℕ → ℕ
or_default none d = d
or_default (some n) d = n

unfoldable pub input_grants : List String → ℕ → AssetStore → Result (List AssetGrant)
input_grants [] expires st = ok []
input_grants (k ∷ ks) expires st = elim (create_read_url k st) [
  | err e ↦ err e
  | ok url ↦ elim (input_grants ks expires st) [
    | err e ↦ err e
    | ok gs ↦ ok (
        record { key = k; url = url; method = "GET"; expires_at = expires; content_type = none }
        ∷ gs)
  ]
]

abbrev octet_stream : String
octet_stream = "application/octet-stream"

abbrev output_grant : String → ℕ → String → AssetGrant
output_grant key expires url = record {
  key = key;
  url = url;
  method = "PUT";
  expires_at = expires;
  content_type = some octet_stream;
}

abbrev pub grant_of : JobRecord → String → ℕ → List AssetGrant → AssetGrant → LeaseGrant
grant_of r token until inputs output = record {
  job_id = r.job_id;
  claim_token = token;
  lease_until = until;
  execution_deadline_seconds = r.execution_deadline_seconds;
  capability_id = r.capability_id;
  contract_version = r.contract_version;
  request_digest = r.request_digest;
  idempotency_key = r.idempotency_key;
  input_keys = r.input_keys;
  output_key = r.output_key;
  payload = r.payload;
  input_grants = inputs;
  output_grant = output;
  tenant_id = r.tenant_id;
}

-- What the store is asked for.
abbrev pub call_of : WorkerIdentity → WorkerRecord → List String → ℕ → LeaseCall
call_of i w effective lease_seconds = record {
  worker_id = i.worker_id;
  capability_ids = effective;
  lease_seconds = lease_seconds;
  tenant_id = w.tenant_id;
  vram_mb = w.vram_mb;
  gpu_model = w.gpu_model;
  labels = w.labels;
  runtime_versions = w.runtime_versions;
}

module _ (s : Settings) where
  abbrev token_of : JobRecord → Action String
  token_of r = elim r.claim_token [ none ↦ raise (stale_lease r.job_id) | some t ↦ return t ]

  -- The grants for a leased job, and its audit event.
  unfoldable pub grant_job : WorkerIdentity → ℕ → Option JobRecord → Action (Option LeaseGrant)
  unfolding input_grants
  grant_job i lease_seconds none = do
    record_event s lease_empty (some i.worker_id) none end
    return none
  grant_job i lease_seconds (some r) = do
    token ← token_of r
    now ← read_clock s
    assets ← gets (λ p. p.assets)
    inputs ← lift (input_grants r.input_keys (now + seconds s.grant_ttl_seconds) assets)
    url ← lift (create_output_upload_url r.output_key assets)
    record_event s lease_granted (some i.worker_id) (some r.job_id)
        (field "attempt" (int (pos r.attempts)) (field "capability_id" (str r.capability_id) end))
    return (
        some (
          grant_of r token (now + seconds lease_seconds) inputs
            (output_grant r.output_key (now + seconds s.grant_ttl_seconds) url)))

  unfoldable pub lease_effective :
      WorkerIdentity → WorkerRecord → List String → ℕ → Action (Option LeaseGrant)
  unfolding grant_job
  lease_effective i w effective lease_seconds = do
    _ ← on_jobs s expire_exhausted
    token ← draw_token s
    job ← on_jobs s (λ now. lease s.lib (call_of i w effective lease_seconds) token now)
    grant_job i lease_seconds job

  unfoldable pub lease_to :
      WorkerIdentity → List String → Option ℕ → WorkerRecord → Action (Option LeaseGrant)
  unfolding effective_ids lease_effective
  lease_to i asked lease_seconds w =
      elim (is_draining_worker w.status || barred || is_nil effective) [
        | true ↦ return none
        | false ↦ lease_effective i w effective (or_default lease_seconds s.default_lease_seconds)
      ]
    where
      barred : Bool
      barred = is_some (unqualified_reason s.profiles [] w.runtime_versions)

      effective : List String
      effective = effective_ids s.profiles w asked

  abbrev registered : WorkerIdentity → Option WorkerRecord → Action WorkerRecord
  registered i none = raise (worker_not_registered i.worker_id)
  registered i (some w) = return w

  unfoldable pub lease_job : WorkerIdentity → List String → Option ℕ → Action (Option LeaseGrant)
  unfolding approved_enrollment lease_to
  lease_job i asked lease_seconds = do
    _ ← approved_enrollment s i
    found ← gets (λ p. get i.worker_id p.registry.workers)
    w ← registered i found
    lease_to i asked lease_seconds w
