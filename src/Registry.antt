-- ===== src/Registry.antt =====
-- `MemoryWorkerRegistry` of memory.py. Each call reads the clock once, `now`, in microseconds.
pub mod Bindings
pub mod Revocation
use outbound_gpu_worker_pool.Base.{
  ℕ, String, Bool, true, false, not, ◌&&◌, ◌||◌, Option, none, some, List, [], ◌∷◌, if◌then◌else◌,
  filter, codes, ℤ_eq, ◌==◌, ℕ_eq, String_eq, Option_eq, List_eq, Dict, get, put, values, keys,
}
use outbound_gpu_worker_pool.Contracts.{
  ◌>>=◌, ◌>>◌, raise_if, worker_identity_mismatch, identity_subject_taken, worker_tenant_mismatch,
  Result, ok, err, WorkerStatus, active, draining, revoked, WorkerRegistration, WorkerRecord,
}
use outbound_gpu_worker_pool.Json.{codes_lt}

pub record WorkerRegistry : Type 0 where
  pub workers : Dict WorkerRecord

abbrev pub is_revoked : WorkerStatus → Bool
is_revoked revoked = true
is_revoked _ = false

-- Another worker holds the subject.
unfoldable pub subject_taken : String → String → List WorkerRecord → Bool
subject_taken subject worker_id [] = false
subject_taken subject worker_id (w ∷ ws) =
    (w.identity_subject == subject && not (w.worker_id == worker_id))
    || subject_taken subject worker_id ws

-- The checks of `upsert` on the worker's own row.
unfoldable pub check_binding : WorkerRegistration → String → Option WorkerRecord → Result (Unit {0})
check_binding g subject none = ok tt
check_binding g subject (some w) = do
  raise_if (not (w.identity_subject == subject)) (worker_identity_mismatch g.worker_id)
  raise_if (not (w.tenant_id == g.tenant_id)) (worker_tenant_mismatch g.worker_id)

abbrev reported_status : Bool → WorkerStatus
reported_status true = draining
reported_status false = active

-- A revoked worker stays revoked.
unfoldable pub next_status : Bool → Option WorkerRecord → WorkerStatus
next_status is_draining none = reported_status is_draining
next_status is_draining (some w) =
    if is_revoked w.status then revoked else reported_status is_draining

abbrev created : ℕ → Option WorkerRecord → ℕ
created now none = now
created now (some w) = w.created_at

abbrev revocation : Option WorkerRecord → Option ℕ
revocation none = none
revocation (some w) = w.revoked_at

unfoldable pub registered_record :
    WorkerRegistration → String → ℕ → Option WorkerRecord → WorkerRecord
unfolding next_status
registered_record g subject now existing = record {
  worker_id = g.worker_id;
  identity_subject = subject;
  status = next_status g.is_draining existing;
  capabilities = g.capabilities;
  gpu_model = g.gpu_model;
  vram_mb = g.vram_mb;
  runtime_versions = g.runtime_versions;
  cost_class = g.cost_class;
  labels = g.labels;
  active_leases = g.active_leases;
  last_heartbeat_at = some now;
  created_at = created now existing;
  updated_at = now;
  revoked_at = revocation existing;
  gpus = g.gpus;
  busy_job_id = g.busy_job_id;
  tenant_id = g.tenant_id;
}

unfoldable pub admits : WorkerRegistration → String → WorkerRegistry → Result (Unit {0})
unfolding check_binding subject_taken
admits g subject st = do
  check_binding g subject (get g.worker_id st.workers)
  raise_if (subject_taken subject g.worker_id (values st.workers)) (identity_subject_taken subject)

unfoldable pub upsert :
    WorkerRegistration → String → ℕ → WorkerRegistry → Result WorkerRecord × WorkerRegistry
unfolding admits registered_record
upsert g subject now st = elim (admits g subject st) [
  | err e ↦ (err e, st)
  | ok _ ↦
      let w = registered_record g subject now (get g.worker_id st.workers) in
      (ok w, record { workers = put g.worker_id w st.workers })
]

unfoldable pub get_worker : String → WorkerRegistry → Option WorkerRecord
get_worker worker_id st = get worker_id st.workers

unfoldable pub find_subject : String → List WorkerRecord → Option WorkerRecord
find_subject subject [] = none
find_subject subject (w ∷ ws) =
    if w.identity_subject == subject then some w else find_subject subject ws

-- `sorted(self.workers)`: texts in code point order.
unfoldable pub insert_text : String → List String → List String
insert_text s [] = s ∷ []
insert_text s (t ∷ ts) = if codes_lt (codes t) (codes s) then t ∷ insert_text s ts else s ∷ t ∷ ts

unfoldable pub sort_texts : List String → List String
unfolding insert_text
sort_texts [] = []
sort_texts (s ∷ ss) = insert_text s (sort_texts ss)

unfoldable pub rows_at : List String → Dict WorkerRecord → List WorkerRecord
rows_at [] d = []
rows_at (k ∷ ks) d = elim (get k d) [ none ↦ rows_at ks d | some w ↦ w ∷ rows_at ks d ]

unfoldable pub list_workers : WorkerRegistry → List WorkerRecord
unfolding sort_texts rows_at
list_workers st = rows_at (sort_texts (keys st.workers)) st.workers

unfoldable pub list_by_tenant : Option String → WorkerRegistry → List WorkerRecord
unfolding list_workers
list_by_tenant tenant st = filter (λ w. w.tenant_id == tenant) (list_workers st)

unfoldable pub with_status : WorkerStatus → ℕ → WorkerRecord → WorkerRecord
with_status status now w = record w {
  status = status;
  updated_at = now;
  revoked_at = if is_revoked status then some now else w.revoked_at;
}

abbrev set_found :
    String → WorkerStatus → ℕ → WorkerRegistry → Option WorkerRecord → Bool × WorkerRegistry
set_found worker_id status now st none = (false, st)
set_found worker_id status now st (some w) =
    (true, record { workers = put worker_id (with_status status now w) st.workers })

unfoldable pub set_status : String → WorkerStatus → ℕ → WorkerRegistry → Bool × WorkerRegistry
unfolding with_status
set_status worker_id status now st = set_found worker_id status now st (get worker_id st.workers)
