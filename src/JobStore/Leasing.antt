-- ===== src/JobStore/Leasing.antt =====
-- `MemoryJobStore.lease` of memory.py, with `_satisfies_requirements` and `_is_leasable`.
use outbound_gpu_worker_pool.Base.{
  ℕ, ◌+◌, String, Bool, true, false, not, ◌&&◌, ◌||◌, Option, none, some, List, [], ◌∷◌, map, ltb,
  if◌then◌else◌, filter, contains, subset, int_lt, int_eq, ℤ_eq, ℤ, pos, ◌==◌, ℕ_eq, String_eq,
  Option_eq, List_eq, Dict, get, put, values,
}
use outbound_gpu_worker_pool.Contracts.{seconds, processing, JobRecord}
use outbound_gpu_worker_pool.Stdlib.{Stdlib}
use outbound_gpu_worker_pool.JobStore.{is_processing, is_queued, JobStore}

-- The keyword arguments of `lease`.
pub record LeaseCall : Type 0 where
  pub worker_id : String
  pub capability_ids : List String
  pub lease_seconds : ℕ
  pub tenant_id : Option String
  pub vram_mb : Option ℕ
  pub gpu_model : Option String
  pub labels : List String
  pub runtime_versions : Dict String

abbrev or_zero : Option ℕ → ℕ
or_zero none = 0
or_zero (some n) = n

abbrev or_zero_int : Option ℤ → ℤ
or_zero_int none = pos 0
or_zero_int (some n) = n

abbrev is_nil {ℓ} : {A : Type ℓ} → List A → Bool
is_nil [] = true
is_nil (x ∷ xs) = false

-- `any(runtime_versions.get(k) != v for k, v in pinned.items())`
abbrev pub version_differs : Dict String → Dict String → Bool
version_differs [] offered = false
version_differs ((k, v) ∷ pinned) offered =
    not (get k offered == some v) || version_differs pinned offered

module _ (lib : Stdlib) where
  abbrev model_among : Option String → List String → Bool
  model_among none models = false
  model_among (some m) models = contains (map lib.lower models) (lib.lower m)

  unfoldable pub satisfies_requirements : JobRecord → LeaseCall → Bool
  satisfies_requirements r c =
      let q = r.requirements in
      if not (is_nil q.worker_ids) && not (contains q.worker_ids c.worker_id)
      then false
      else if version_differs q.runtime_versions c.runtime_versions
      then false
      else if int_lt (pos (or_zero c.vram_mb)) (or_zero_int q.min_vram_mb)
      then false
      else if not (is_nil q.gpu_models) && not (model_among c.gpu_model q.gpu_models)
      then false
      else subset q.labels c.labels

abbrev pub expired_by : Option ℕ → ℕ → Bool
expired_by none now = false
expired_by (some t) now = ltb t now

unfoldable pub is_leasable : JobRecord → ℕ → Bool
is_leasable r now =
    if is_queued r.status then true else is_processing r.status && expired_by r.lease_until now

-- The key `(priority, created_at)` of `min`, which keeps the first of equals.
unfoldable pub before : JobRecord → JobRecord → Bool
before a b =
    int_lt a.priority b.priority || (int_eq a.priority b.priority && ltb a.created_at b.created_at)

unfoldable pub earliest : JobRecord → List JobRecord → JobRecord
earliest best [] = best
earliest best (r ∷ rs) = earliest (if before r best then r else best) rs

unfoldable pub leased_record : LeaseCall → String → ℕ → JobRecord → JobRecord
leased_record c token now r = record r {
  status = processing;
  attempts = r.attempts + 1;
  claim_token = some token;
  leased_by = some c.worker_id;
  lease_until = some (now + seconds c.lease_seconds);
  updated_at = now;
}

module _ (lib : Stdlib) where
  -- The filter of `lease`: capability, budget, tenant, requirements, and a free or expired lease.
  unfoldable pub is_candidate : LeaseCall → ℕ → JobRecord → Bool
  unfolding is_leasable
  is_candidate c now r =
      contains c.capability_ids r.capability_id
      && int_lt (pos r.attempts) r.attempt_budget
      && r.tenant_id == c.tenant_id
      && satisfies_requirements lib r c
      && is_leasable r now

  abbrev pub candidates : LeaseCall → ℕ → JobStore → List JobRecord
  candidates c now st = filter (is_candidate c now) (values st.records)

  abbrev pub lease_first :
      LeaseCall → String → ℕ → JobStore → List JobRecord → Option JobRecord × JobStore
  lease_first c token now st [] = (none, st)
  lease_first c token now st (r ∷ rs) =
      let leased = leased_record c token now (earliest r rs) in
      (some leased, record { records = put (earliest r rs).job_id leased st.records })

  unfoldable pub lease : LeaseCall → String → ℕ → JobStore → Option JobRecord × JobStore
  lease c token now st = lease_first c token now st (candidates c now st)
