-- ===== src/Routes/Raised.antt =====
-- The calls on a leased job raise only what the routes' table has.
use outbound_gpu_worker_pool.Base.{
  ℕ, ◌+◌, String, ◌≡◌, refl, sym, subst, inl, inr, Bool, true, false, not, ◌||◌, Option, none, some,
  arith, Bool-cases, Option-cases, is_some, int_le, ℤ_eq, pos, ◌==◌, ℕ_eq, String_eq, Option_eq,
  List_eq, get,
}
use outbound_gpu_worker_pool.Contracts.{
  Error, worker_auth_error, worker_identity_mismatch, worker_auth_busy, stale_lease, Result, ok,
  err, bool, Fields, end, field, JobFailureCode, temporary_failure, JobRecord, WorkerRecord,
  WorkerIdentity,
}
use outbound_gpu_worker_pool.Registry.{is_revoked, WorkerRegistry}
use outbound_gpu_worker_pool.Enrollment.{new_enrollment, WorkerEnrollment}
use outbound_gpu_worker_pool.Service.{◌>>=◌, Action, lift, continue, fail_if, gets, Settings, Pool}
use outbound_gpu_worker_pool.Service.Admission.{
  approve_known, approve_new, approve, approved_enrollment,
}
use outbound_gpu_worker_pool.Routes.{mapped_error}
use outbound_gpu_worker_pool.Routes.Requests.{is_ok}
use outbound_gpu_worker_pool.Service.Jobs.{
  owned, owned_job, beat_owned, job_heartbeat, fail_owned, reported, fail_job, release_by,
  release_job,
}
use outbound_gpu_worker_pool.JobStore.Settling.{heartbeat, fail, release, Failure}
use outbound_gpu_worker_pool.JobStore.{get_job, is_processing}

-- The table of the routes has the error.
abbrev pub IsMapped : Error → Type 0
IsMapped e = is_some (mapped_error e) ≡ true

-- An error of an authenticator that its contract allows.
abbrev pub IsAuthError : Error → Type 0
IsAuthError (worker_auth_error m) = Unit
IsAuthError (worker_identity_mismatch m) = Unit
IsAuthError (worker_auth_busy m) = Unit
IsAuthError e = ⊥

abbrev pub IfRaised : {A : Type 0} → (Error → Type 0) → Result A → Type 0
IfRaised P (ok x) = Unit
IfRaised P (err e) = P e

-- The registry's rows hold what an enrollment may hold.
abbrev pub HoldsEnrollments : Settings → WorkerRegistry → Type 0
HoldsEnrollments s st =
    (worker_id : String) (w : WorkerRecord)
    → get worker_id st.workers ≡ some w
    → is_ok (new_enrollment s.lib w.identity_subject w.tenant_id) ≡ true

-- A task that leaves the registry and raises only what the table has.
abbrev pub IsSafe : {A : Type 0} → WorkerRegistry → Result A × Pool → Type 0
IsSafe st (r, p) = (p.registry ≡ st) × IfRaised IsMapped r

pub continue-Safe :
    {A B : Type 0} (st : WorkerRegistry) (r : Result A) (p : Pool) (f : A → Action B)
    → IsSafe st (r, p)
    → ((x : A) → IsSafe st (f x p))
    → IsSafe st (continue (r, p) f)
continue-Safe st (ok x) p f safe next = next x
continue-Safe st (err e) p f safe next = safe

module _ (s : Settings) (st : WorkerRegistry) (enrolls : HoldsEnrollments s st) where
  approve_known-Mapped :
      (i : WorkerIdentity) (w : WorkerRecord)
      → is_ok (new_enrollment s.lib w.identity_subject w.tenant_id) ≡ true
      → IfRaised IsMapped (approve_known s.lib i w)
  unfolding approve_known mapped_error
  approve_known-Mapped i w fine = elim (Bool-cases (w.identity_subject == i.subject)) [
    | inr e ↦ rw (approve_known, e) refl
    | inl e ↦ elim (Bool-cases (is_revoked w.status)) [
      | inl v ↦ rw (approve_known, e, v) refl
      | inr v ↦ rw (approve_known, e, v) (no_error _ fine)
    ]
  ]
    where
      no_error : (r : Result WorkerEnrollment) → is_ok r ≡ true → IfRaised IsMapped r
      no_error (ok x) h = tt
      no_error (err e) h = absurd (ground (arith, h))

  approve_new-Mapped :
      (i : WorkerIdentity) (e : Option WorkerEnrollment) → IfRaised IsMapped (approve_new i e)
  unfolding approve_new mapped_error
  approve_new-Mapped i none = refl
  approve_new-Mapped i (some e) = elim (Bool-cases (e.identity_subject == i.subject)) [
    | inl v ↦ rw v tt
    | inr v ↦ rw v refl
  ]

  approve-Mapped : (i : WorkerIdentity) → IfRaised IsMapped (approve s.lib s.enrollments i st)
  unfolding approve
  approve-Mapped i = elim (Option-cases (get i.worker_id st.workers)) [
    | inl e ↦ rw (approve, e) (approve_new-Mapped i (get i.worker_id s.enrollments))
    | inr (w, e) ↦ rw (approve, e) (approve_known-Mapped i w (enrolls i.worker_id w e))
  ]

  pub approved_enrollment-Safe :
      (i : WorkerIdentity) (p : Pool) → p.registry ≡ st → IsSafe st (approved_enrollment s i p)
  unfolding approved_enrollment
  approved_enrollment-Safe i p same = (
    same,
    subst (λ st. IfRaised IsMapped (approve s.lib s.enrollments i st)) (sym same)
        (approve-Mapped i),
  )

  owned-Mapped :
      (i : WorkerIdentity) (job_id : String) (found : Option JobRecord)
      → IfRaised IsMapped (owned s i job_id found)
  unfolding mapped_error
  owned-Mapped i job_id none = refl
  owned-Mapped i job_id (some r) =
      elim (Bool-cases (not (r.leased_by == some i.worker_id) || not (is_processing r.status))) [
        | inl e ↦ rw e refl
        | inr e ↦ rw e tt
      ]

  pub owned_job-Safe :
      (i : WorkerIdentity) (job_id : String) (p : Pool)
      → p.registry ≡ st
      → IsSafe st (owned_job s i job_id p)
  unfolding owned_job
  owned_job-Safe i job_id p same =
      let approved = approved_enrollment s i p in
      continue-Safe st approved.0 p
        (λ _. gets (λ p. get_job job_id p.jobs) >>= λ found. lift (owned s i job_id found))
        (approved_enrollment-Safe i p same)
        (λ _. (same, owned-Mapped i job_id (get_job job_id p.jobs)))

  -- A check of the store's answer, before the rest.
  pub checked-Safe :
      {A : Type 0} (raises : Bool) (job_id : String) (p : Pool) (rest : Action A)
      → p.registry ≡ st
      → IsSafe st (rest p)
      → IsSafe st (continue (fail_if raises (stale_lease job_id) p) (λ _. rest))
  unfolding mapped_error
  checked-Safe true job_id p rest same safe = (same, refl)
  checked-Safe false job_id p rest same safe = safe

  pub fail_owned-Safe :
      (i : WorkerIdentity) (job_id : String) (r : JobRecord) (token : String) (f : Failure)
      (rest : Fields) (p : Pool)
      → p.registry ≡ st
      → IsSafe st (fail_owned s i job_id r token f rest p)
  fail_owned-Safe i job_id r token f rest p same =
      let (accepted, jobs) = fail r.job_id token f (s.clock p.readings) p.jobs in
      checked-Safe (not accepted) job_id (record p { jobs = jobs; readings = p.readings + 1 }) _
        same (same, tt)

  pub fail_job-Safe :
      (i : WorkerIdentity) (job_id token reason : String) (retryable : Bool) (code : JobFailureCode)
      (p : Pool)
      → p.registry ≡ st
      → IsSafe st (fail_job s i job_id token reason retryable code p)
  unfolding fail_job
  fail_job-Safe i job_id token reason retryable code p same =
      let found = owned_job s i job_id p in
      let safe = owned_job-Safe i job_id p same in
      continue-Safe st found.0 found.1
        (λ r. fail_owned s i job_id r token (reported s reason retryable code) end) safe
        (λ r.
          fail_owned-Safe i job_id r token (reported s reason retryable code) end found.1 safe.0)

  pub release_by-Safe :
      (spent : Bool) (i : WorkerIdentity) (job_id : String) (r : JobRecord) (token reason : String)
      (p : Pool)
      → p.registry ≡ st
      → IsSafe st (release_by s spent i job_id r token reason p)
  release_by-Safe true i job_id r token reason p same =
      fail_owned-Safe i job_id r token (reported s reason true temporary_failure)
        (field "budget_exhausted" (bool true) end) p same
  release_by-Safe false i job_id r token reason p same =
      let (accepted, jobs) = release r.job_id token reason (s.clock p.readings) p.jobs in
      checked-Safe (not accepted) job_id (record p { jobs = jobs; readings = p.readings + 1 }) _
        same (same, tt)

  pub release_job-Safe :
      (i : WorkerIdentity) (job_id token reason : String) (p : Pool)
      → p.registry ≡ st
      → IsSafe st (release_job s i job_id token reason p)
  unfolding release_job
  release_job-Safe i job_id token reason p same =
      let found = owned_job s i job_id p in
      let safe = owned_job-Safe i job_id p same in
      continue-Safe st found.0 found.1
        (λ r. release_by s (int_le r.attempt_budget (pos r.attempts)) i job_id r token reason) safe
        (λ r.
          release_by-Safe (int_le r.attempt_budget (pos r.attempts)) i job_id r token reason found.1
            safe.0)

  pub job_heartbeat-Safe :
      (i : WorkerIdentity) (job_id token : String) (progress : Option ℕ) (p : Pool)
      → p.registry ≡ st
      → IsSafe st (job_heartbeat s i job_id token progress p)
  unfolding job_heartbeat
  job_heartbeat-Safe i job_id token progress p same =
      let found = owned_job s i job_id p in
      let safe = owned_job-Safe i job_id p same in
      continue-Safe st found.0 found.1 (λ r. beat_owned s i job_id r token progress) safe
        (λ r. beat_owned-Safe r found.1 safe.0)
    where
      beat_owned-Safe :
          (r : JobRecord) (p : Pool)
          → p.registry ≡ st
          → IsSafe st (beat_owned s i job_id r token progress p)
      beat_owned-Safe r p same =
          let (accepted, jobs) =
            heartbeat r.job_id token s.default_lease_seconds progress (s.clock p.readings) p.jobs in
          checked-Safe (not accepted) job_id (record p { jobs = jobs; readings = p.readings + 1 }) _
            same (same, tt)
