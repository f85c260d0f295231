-- ===== src/Service/Settlements.antt =====
-- What the service's methods on a leased job do to the stores.
use outbound_gpu_worker_pool.Base.{
  ℕ, String, refl, inl, inr, Bool, true, false, Option, none, Bool-cases,
}
use outbound_gpu_worker_pool.Contracts.{
  Result-cases, Error, completion_rejected, Result, ok, err, Fields, invalid_input, JobRecord,
  WorkerIdentity, OutputManifest,
}
use outbound_gpu_worker_pool.JobStore.Evolution.{step, beats, completes, fails, releases}
use outbound_gpu_worker_pool.Service.{Settings, Pool}
use outbound_gpu_worker_pool.Service.Jobs.{
  job_heartbeat, completion, rejected, accept_output, complete_job, fail_owned, fail_job,
  release_owned, release_by, release_job,
}
use outbound_gpu_worker_pool.Service.Ownership.{
  owned_job-cases, done, perform, Work, beat, finish, give_up, hand_back,
}
use outbound_gpu_worker_pool.JobStore.Settling.{heartbeat, complete, fail, release, Failure}
use outbound_gpu_worker_pool.Service.Refinement.{untouched, one_call, Refines}
use outbound_gpu_worker_pool.Service.Verification.{verify_output}

job_heartbeat-Refines :
    (s : Settings) (i : WorkerIdentity) (job_id token : String) (progress : Option ℕ) (pool : Pool)
    → Refines s pool (job_heartbeat s i job_id token progress pool).1
unfolding job_heartbeat step
job_heartbeat-Refines s i job_id token progress pool = elim (owned_job-cases s i job_id pool) [
  | inl (e, q) ↦ rw (job_heartbeat, q) (untouched refl refl)
  | inr (r, f) ↦
      elim (Bool-cases
        (heartbeat r.job_id token s.default_lease_seconds progress (s.clock pool.readings)
          pool.jobs).0) [
            | inl b ↦
                rw (job_heartbeat, f.returned, b)
                  (one_call (beats r.job_id token s.default_lease_seconds progress) tt refl refl)
            | inr b ↦
                rw (job_heartbeat, f.returned, b)
                  (one_call (beats r.job_id token s.default_lease_seconds progress) tt refl refl)
          ]
]

fail_owned-Refines :
    (s : Settings) (i : WorkerIdentity) (job_id : String) (r : JobRecord) (token : String)
    (x : Failure) (rest : Fields) (pool : Pool)
    → Refines s pool (fail_owned s i job_id r token x rest pool).1
unfolding step
fail_owned-Refines s i job_id r token x rest pool =
    elim (Bool-cases (fail r.job_id token x (s.clock pool.readings) pool.jobs).0) [
      | inl b ↦ rw b (one_call (fails r.job_id token x) tt refl refl)
      | inr b ↦ rw b (one_call (fails r.job_id token x) tt refl refl)
    ]

release_owned-Refines :
    (s : Settings) (i : WorkerIdentity) (job_id : String) (r : JobRecord) (token reason : String)
    (pool : Pool)
    → Refines s pool (release_owned s i job_id r token reason pool).1
unfolding step
release_owned-Refines s i job_id r token reason pool =
    elim (Bool-cases (release r.job_id token reason (s.clock pool.readings) pool.jobs).0) [
      | inl b ↦ rw b (one_call (releases r.job_id token reason) tt refl refl)
      | inr b ↦ rw b (one_call (releases r.job_id token reason) tt refl refl)
    ]

release_by-Refines :
    (b : Bool) (s : Settings) (i : WorkerIdentity) (job_id : String) (r : JobRecord)
    (token reason : String) (pool : Pool)
    → Refines s pool (release_by s b i job_id r token reason pool).1
release_by-Refines true s i job_id r token reason pool =
    fail_owned-Refines s i job_id r token _ _ pool
release_by-Refines false s i job_id r token reason pool =
    release_owned-Refines s i job_id r token reason pool

rejected-Refines :
    (s : Settings) (i : WorkerIdentity) (r : JobRecord) (token : String) (e : Error) (pool : Pool)
    → Refines s pool (rejected s i r token e pool).1
unfolding rejected step
rejected-Refines s i r token (completion_rejected reason) pool =
    one_call
      (fails r.job_id token (record {
        reason = reason;
        failure_code = invalid_input;
        failure_message = none;
        retryable = false;
      }))
      tt refl refl
rejected-Refines s i r token e pool = untouched refl refl

accept_output-Refines :
    (s : Settings) (i : WorkerIdentity) (job_id : String) (r : JobRecord) (token : String)
    (m : OutputManifest) (pool : Pool)
    → Refines s pool (accept_output s i job_id r token m pool).1
unfolding accept_output step
accept_output-Refines s i job_id r token m pool =
    elim (Bool-cases
      (complete r.job_id token (completion s m) (s.clock pool.readings) pool.jobs).0) [
        | inl b ↦
            rw (accept_output, b)
              (one_call (completes r.job_id token (completion s m)) tt refl refl)
        | inr b ↦
            rw (accept_output, b)
              (one_call (completes r.job_id token (completion s m)) tt refl refl)
      ]

pub perform-Refines :
    (s : Settings) (i : WorkerIdentity) (job_id token : String) (w : Work) (pool : Pool)
    → Refines s pool (perform s i job_id token w pool).1
unfolding perform complete_job fail_job release_job
perform-Refines s i job_id token (beat progress) pool =
    done-Refines (job_heartbeat s i job_id token progress pool)
      (job_heartbeat-Refines s i job_id token progress pool)
  where
    done-Refines : (a : Result ℕ × Pool) → Refines s pool a.1 → Refines s pool (done a).1
    done-Refines (ok n, q) h = h
    done-Refines (err e, q) h = h
perform-Refines s i job_id token (finish m) pool = elim (owned_job-cases s i job_id pool) [
  | inl (e, q) ↦ rw (perform, complete_job, q) (untouched refl refl)
  | inr (r, f) ↦ elim (Result-cases (verify_output s r m pool)) [
    | inl (a, v) ↦
        rw (perform, complete_job, f.returned, v) (accept_output-Refines s i job_id r token m pool)
    | inr (e, v) ↦ rw (perform, complete_job, f.returned, v) (rejected-Refines s i r token e pool)
  ]
]
perform-Refines s i job_id token (give_up reason retryable code) pool =
    elim (owned_job-cases s i job_id pool) [
      | inl (e, q) ↦ rw (perform, fail_job, q) (untouched refl refl)
      | inr (r, f) ↦
          rw (perform, fail_job, f.returned) (fail_owned-Refines s i job_id r token _ _ pool)
    ]
perform-Refines s i job_id token (hand_back reason) pool = elim (owned_job-cases s i job_id pool) [
  | inl (e, q) ↦ rw (perform, release_job, q) (untouched refl refl)
  | inr (r, f) ↦
      rw (perform, release_job, f.returned) (release_by-Refines _ s i job_id r token reason pool)
]
