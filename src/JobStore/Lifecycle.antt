-- ===== src/JobStore/Lifecycle.antt =====
-- The life of one job as a step relation: what the store may do to a record. `mint` is the token
-- that the call brings, if it is a lease.
use outbound_gpu_worker_pool.Base.{
  ℕ, ◌≤◌, String, ◌≡◌, refl, sym, subst, true, Option, none, some, arith, ◌≤ℤ◌, ◌<ℤ◌, pos,
}
use outbound_gpu_worker_pool.Contracts.{
  JobStatus, queued, processing, completed, failed, cancelled, JobRecord,
}
use outbound_gpu_worker_pool.JobStore.{is_open, is_processing, cancelled_record}
use outbound_gpu_worker_pool.JobStore.Leasing.{is_leasable, leased_record, LeaseCall}
use outbound_gpu_worker_pool.JobStore.Settling.{
  extended, completed_record, failed_record, released_record, is_exhausted, exhausted_record,
  Completion, Failure,
}

pub is_processing→eq : (s : JobStatus) → is_processing s ≡ true → s ≡ processing
is_processing→eq processing h = refl
is_processing→eq _ h = cc

pub data Lifecycle (mint : Option String) (r s : JobRecord) : Type 0 where
  granted :
      (c : LeaseCall) (token : String) (now : ℕ)
      → mint ≡ some token
      → is_leasable r now ≡ true
      → pos r.attempts <ℤ r.attempt_budget
      → s ≡ leased_record c token now r
      → Lifecycle mint r s
  renewed :
      (lease_seconds : ℕ) (progress : Option ℕ) (now : ℕ)
      → r.status ≡ processing
      → s ≡ extended lease_seconds progress now r
      → Lifecycle mint r s
  done :
      (c : Completion) (now : ℕ)
      → r.status ≡ processing
      → s ≡ completed_record c now r
      → Lifecycle mint r s
  gave_up :
      (f : Failure) (now : ℕ)
      → r.status ≡ processing
      → s ≡ failed_record f now r
      → Lifecycle mint r s
  requeued :
      (reason : String) (now : ℕ)
      → r.status ≡ processing
      → s ≡ released_record reason now r
      → Lifecycle mint r s
  withdrawn : (now : ℕ) → is_open r.status ≡ true → s ≡ cancelled_record now r → Lifecycle mint r s
  spent : (now : ℕ) → is_exhausted now r ≡ true → s ≡ exhausted_record now r → Lifecycle mint r s

abbrev IsSome {ℓ} : {A : Type ℓ} → Option A → Type 0
IsSome none = ⊥
IsSome (some a) = Unit {0}

-- The lease fields are all set, or all clear.
abbrev HasLease : JobRecord → Type 0
HasLease r = IsSome r.claim_token × IsSome r.leased_by × IsSome r.lease_until

abbrev NoLease : JobRecord → Type 0
NoLease r = (r.claim_token ≡ none) × (r.leased_by ≡ none) × (r.lease_until ≡ none)

-- What a record of each status holds.
abbrev Shape : JobStatus → JobRecord → Type 0
Shape queued r = NoLease r
Shape processing r = HasLease r × (1 ≤ r.attempts)
Shape completed r =
    NoLease r × IsSome r.output_sha256 × IsSome r.output_byte_length × (r.error ≡ none)
Shape failed r = NoLease r × IsSome r.error × IsSome r.failure_code
Shape cancelled r = NoLease r × IsSome r.cancelled_at

pub record JobIsValid (r : JobRecord) : Type 0 where
  pub within_budget : pos r.attempts ≤ℤ r.attempt_budget
  pub shape : Shape r.status r

renewed-Shape :
    (secs : ℕ) (progress : Option ℕ) (now : ℕ) (r : JobRecord)
    → r.status ≡ processing
    → Shape r.status r
    → Shape r.status (extended secs progress now r)
unfolding extended
renewed-Shape secs progress now r p h =
    let held = subst (λ (x : JobStatus). Shape x r) p h in
    subst (λ (x : JobStatus). Shape x (extended secs progress now r)) (sym p)
      ((held.0.0, held.0.1, tt), held.1)

-- Every step of a job's life keeps its record valid: the attempts within the budget, the lease
-- fields all set while it is processing and all clear otherwise, and the outcome of its status.
pub Lifecycle-JobIsValid :
    (mint : Option String) (r s : JobRecord) → Lifecycle mint r s → JobIsValid r → JobIsValid s
unfolding leased_record extended completed_record failed_record released_record cancelled_record
    exhausted_record
Lifecycle-JobIsValid mint r s (granted c token now m l b e) v =
    rw e (record { within_budget = omega arith; shape = ((tt, tt, tt), omega arith) })
Lifecycle-JobIsValid mint r s (renewed secs progress now p e) v = rw e (record {
  within_budget = v.within_budget;
  shape = renewed-Shape secs progress now r p v.shape;
})
Lifecycle-JobIsValid mint r s (done c now p e) v =
    rw e (record { within_budget = v.within_budget; shape = ((refl, refl, refl), tt, tt, refl) })
Lifecycle-JobIsValid mint r s (gave_up f now p e) v =
    rw e (record { within_budget = v.within_budget; shape = ((refl, refl, refl), tt, tt) })
Lifecycle-JobIsValid mint r s (requeued reason now p e) v =
    rw e (record { within_budget = v.within_budget; shape = (refl, refl, refl) })
Lifecycle-JobIsValid mint r s (withdrawn now p e) v =
    rw e (record { within_budget = v.within_budget; shape = ((refl, refl, refl), tt) })
Lifecycle-JobIsValid mint r s (spent now p e) v =
    rw e (record { within_budget = v.within_budget; shape = ((refl, refl, refl), tt, tt) })

-- A settled job takes no further step.
pub Lifecycle-is_open :
    (mint : Option String) (r s : JobRecord) → Lifecycle mint r s → is_open r.status ≡ true
unfolding is_leasable is_exhausted
Lifecycle-is_open mint r s (granted c token now m l b e) = ground arith
Lifecycle-is_open mint r s (renewed secs progress now p e) = rw p
Lifecycle-is_open mint r s (done c now p e) = rw p
Lifecycle-is_open mint r s (gave_up f now p e) = rw p
Lifecycle-is_open mint r s (requeued reason now p e) = rw p
Lifecycle-is_open mint r s (withdrawn now p e) = p
Lifecycle-is_open mint r s (spent now p e) = ground arith

-- What was submitted, and when, never changes, and attempts only add up.
pub record SameRequest (r s : JobRecord) : Type 0 where
  pub job_id : s.job_id ≡ r.job_id
  pub idempotency_key : s.idempotency_key ≡ r.idempotency_key
  pub capability_id : s.capability_id ≡ r.capability_id
  pub contract_version : s.contract_version ≡ r.contract_version
  pub input_keys : s.input_keys ≡ r.input_keys
  pub output_key : s.output_key ≡ r.output_key
  pub payload : s.payload ≡ r.payload
  pub tenant_id : s.tenant_id ≡ r.tenant_id
  pub requirements : s.requirements ≡ r.requirements
  pub priority : s.priority ≡ r.priority
  pub attempt_budget : s.attempt_budget ≡ r.attempt_budget
  pub deadline : s.execution_deadline_seconds ≡ r.execution_deadline_seconds
  pub request_digest : s.request_digest ≡ r.request_digest
  pub created_at : s.created_at ≡ r.created_at
  pub attempts : r.attempts ≤ s.attempts

pub Lifecycle-SameRequest :
    (mint : Option String) (r s : JobRecord) → Lifecycle mint r s → SameRequest r s
unfolding leased_record extended completed_record failed_record released_record cancelled_record
    exhausted_record
Lifecycle-SameRequest mint r s (granted c token now m l b e) = ground arith
Lifecycle-SameRequest mint r s (renewed secs progress now p e) = ground arith
Lifecycle-SameRequest mint r s (done c now p e) = ground arith
Lifecycle-SameRequest mint r s (gave_up f now p e) = ground arith
Lifecycle-SameRequest mint r s (requeued reason now p e) = ground arith
Lifecycle-SameRequest mint r s (withdrawn now p e) = ground arith
Lifecycle-SameRequest mint r s (spent now p e) = ground arith
