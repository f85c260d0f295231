-- ===== src/JobStore/Evolution.antt =====
-- The calls of the store as steps, and the effect of one call on the store.
use outbound_gpu_worker_pool.Base.{
  ℕ, String, ◌≡◌, refl, ap, ◌⊎◌, inl, inr, true, Option, none, some, List, [], ◌∷◌, arith, eq_iff,
  Bool-cases, Option-cases, and-true, ◌<ℤ◌, pos, get, put, values,
}
use outbound_gpu_worker_pool.Contracts.{
  Result-cases, Result, ok, err, processing, JobSubmission, JobRecord,
}
use outbound_gpu_worker_pool.Stdlib.{Stdlib}
use outbound_gpu_worker_pool.Validation.{validate_job_submission, job_request_digest}
use outbound_gpu_worker_pool.JobStore.{
  new_record, find_idempotent, store_record, create, submit_valid, submit, is_open, is_processing,
  cancel, JobStore,
}
use outbound_gpu_worker_pool.JobStore.Leasing.{
  is_leasable, leased_record, is_candidate, lease, LeaseCall,
}
use outbound_gpu_worker_pool.JobStore.Settling.{
  token_matches, holds_lease, leased_job, settle_with, heartbeat, complete, fail, release,
  expire_exhausted, Completion, Failure,
}
use outbound_gpu_worker_pool.JobStore.Lifecycle.{
  is_processing→eq, Lifecycle, granted, renewed, done, gave_up, requeued, withdrawn,
}
use outbound_gpu_worker_pool.JobStore.Keyed.{Keyed, In-get}
use outbound_gpu_worker_pool.JobStore.Selection.{lease-Selects, Selects, nothing_free, chosen}

pub data Call : Type 0 where
  submits : JobSubmission → Call
  cancels : String → Call
  leases : LeaseCall → String → Call
  beats : String → String → ℕ → Option ℕ → Call
  completes : String → String → Completion → Call
  fails : String → String → Failure → Call
  releases : String → String → String → Call
  expires : Call

-- The store after a call at a time.
unfoldable pub step : Stdlib → Call → ℕ → JobStore → JobStore
step lib (submits s) now st = (submit lib s now st).1
step lib (cancels job_id) now st = (cancel job_id now st).1
step lib (leases c token) now st = (lease lib c token now st).1
step lib (beats job_id token secs progress) now st = (heartbeat job_id token secs progress now st).1
step lib (completes job_id token c) now st = (complete job_id token c now st).1
step lib (fails job_id token f) now st = (fail job_id token f now st).1
step lib (releases job_id token reason) now st = (release job_id token reason now st).1
step lib expires now st = (expire_exhausted now st).1

-- The token that a call brings into the store.
abbrev pub mint : Call → Option String
mint (leases c token) = some token
mint _ = none

unfoldable pub run : Stdlib → List (Call × ℕ) → JobStore → JobStore
unfolding step
run lib [] st = st
run lib ((c, now) ∷ cs) st = run lib cs (step lib c now st)

-- What a call may do to the store: nothing, one step of one job, a new job, or the sweep.
pub data Effect (lib : Stdlib) (c : Call) (st t : JobStore) : Type 0 where
  idle : t ≡ st → Effect lib c st t
  writes :
      (id : String) (r s : JobRecord)
      → get id st.records ≡ some r
      → Lifecycle (mint c) r s
      → t ≡ record { records = put id s st.records }
      → Effect lib c st t
  creates :
      (s : JobSubmission) (digest : String) (now : ℕ)
      → c ≡ submits s
      → validate_job_submission lib s ≡ ok tt
      → job_request_digest lib s ≡ ok digest
      → find_idempotent s.idempotency_key (values st.records) ≡ none
      → t ≡ store_record (new_record s digest now) st
      → Effect lib c st t
  sweeps : (now : ℕ) → t ≡ (expire_exhausted now st).1 → Effect lib c st t

token_matches→eq : (o : Option String) (t : String) → token_matches o t ≡ true → o ≡ some t
token_matches→eq none t h = cc
token_matches→eq (some s) t h = ap (λ (x : String). some x) ((eq_iff s t).0 h)

-- A live lease under a job id and a token, or none.
abbrev pub Held : String → String → JobStore → Type 0
Held job_id token st =
    (r : JobRecord) × (leased_job job_id token st ≡ some r)
    × (get job_id st.records ≡ some r)
    × (r.status ≡ processing)
    × (r.claim_token ≡ some token)

pub leased_job-cases :
    (job_id token : String) (st : JobStore)
    → (leased_job job_id token st ≡ none) ⊎ Held job_id token st
unfolding leased_job
leased_job-cases job_id token st = elim (Option-cases (get job_id st.records)) [
  | inl e ↦ inl (rw (e, leased_job))
  | inr (r, e) ↦ elim (Bool-cases (holds_lease token r)) [
    | inl h ↦
        let p = and-true (is_processing r.status) (token_matches r.claim_token token) h in
        inr (
          r,
          rw (e, h, leased_job),
          e,
          is_processing→eq r.status p.0,
          token_matches→eq r.claim_token token p.1,
        )
    | inr h ↦ inl (rw (e, h, leased_job))
  ]
]

settle-Effect :
    (lib : Stdlib) (c : Call) (job_id token : String) (f : JobRecord → JobRecord) (st : JobStore)
    → ((r : JobRecord) → r.status ≡ processing → Lifecycle (mint c) r (f r))
    → Effect lib c st (settle_with job_id f st (leased_job job_id token st)).1
settle-Effect lib c job_id token f st l = elim (leased_job-cases job_id token st) [
  | inl e ↦ rw e (idle refl)
  | inr (r, e, g, p, q) ↦ rw e (writes job_id r (f r) g (l r p) refl)
]

cancel-Effect :
    (lib : Stdlib) (job_id : String) (now : ℕ) (st : JobStore)
    → Effect lib (cancels job_id) st (cancel job_id now st).1
unfolding cancel
cancel-Effect lib job_id now st = elim (Option-cases (get job_id st.records)) [
  | inl e ↦ rw (e, cancel) (idle refl)
  | inr (r, e) ↦ elim (Bool-cases (is_open r.status)) [
    | inl o ↦ rw (e, o, cancel) (writes job_id r _ e (withdrawn now o refl) refl)
    | inr o ↦ rw (e, o, cancel) (idle refl)
  ]
]

candidate-leasable :
    (lib : Stdlib) (c : LeaseCall) (now : ℕ) (r : JobRecord)
    → is_candidate lib c now r ≡ true
    → (is_leasable r now ≡ true) × (pos r.attempts <ℤ r.attempt_budget)
unfolding is_candidate
candidate-leasable lib c now r h = (ground arith, ground arith)

Selects-Effect :
    (lib : Stdlib) (c : LeaseCall) (token : String) (now : ℕ) (st : JobStore)
    (a : Option JobRecord × JobStore)
    → Keyed st.records
    → Selects lib c token now st a
    → Effect lib (leases c token) st a.1
Selects-Effect lib c token now st a h (nothing_free f) = idle refl
Selects-Effect lib c token now st a h (chosen r i p f) =
    let q = candidate-leasable lib c now r p in
    writes r.job_id r (leased_record c token now r) (In-get r st.records h i)
      (granted c token now refl q.0 q.1 refl) refl

create-Effect :
    (lib : Stdlib) (s : JobSubmission) (now : ℕ) (d : Result String) (st : JobStore)
    → validate_job_submission lib s ≡ ok tt
    → job_request_digest lib s ≡ d
    → find_idempotent s.idempotency_key (values st.records) ≡ none
    → Effect lib (submits s) st (create s now d st).1
create-Effect lib s now (err e) st v q f = idle refl
create-Effect lib s now (ok digest) st v q f = creates s digest now refl v q f refl

submit-Effect :
    (lib : Stdlib) (s : JobSubmission) (now : ℕ) (st : JobStore)
    → Effect lib (submits s) st (submit lib s now st).1
unfolding submit
submit-Effect lib s now st = elim (Result-cases (validate_job_submission lib s)) [
  | inr (e, q) ↦ rw (q, submit) (idle refl)
  | inl (a, q) ↦
      rw (q, submit)
        (elim (Option-cases (find_idempotent s.idempotency_key (values st.records))) [
          | inr (r, p) ↦ rw (p, submit_valid) (idle refl)
          | inl p ↦
              rw (p, submit_valid) (create-Effect lib s now (job_request_digest lib s) st q refl p)
        ])
]

-- In a store whose jobs each stand under their own id, every call, on every branch, leaves the
-- store alone, moves one job one step along its life, adds the job of a submission that validation
-- lets through, with the digest of its request, under an idempotency key that no job had, or sweeps.
pub step-Effect :
    (lib : Stdlib) (c : Call) (now : ℕ) (st : JobStore)
    → Keyed st.records
    → Effect lib c st (step lib c now st)
unfolding step lease heartbeat complete fail release
step-Effect lib (submits s) now st h = submit-Effect lib s now st
step-Effect lib (cancels job_id) now st h = cancel-Effect lib job_id now st
step-Effect lib (leases c token) now st h =
    Selects-Effect lib c token now st _ h (lease-Selects lib c token now st)
step-Effect lib (beats job_id token secs progress) now st h =
    settle-Effect lib _ job_id token _ st (λ r p. renewed secs progress now p refl)
step-Effect lib (completes job_id token c) now st h =
    settle-Effect lib _ job_id token _ st (λ r p. done c now p refl)
step-Effect lib (fails job_id token x) now st h =
    settle-Effect lib _ job_id token _ st (λ r p. gave_up x now p refl)
step-Effect lib (releases job_id token reason) now st h =
    settle-Effect lib _ job_id token _ st (λ r p. requeued reason now p refl)
step-Effect lib expires now st h = sweeps now refl
