-- ===== src/Service/Grants.antt =====
-- What a lease through the service grants.
use outbound_gpu_worker_pool.Base.{
  ℕ, ◌+◌, String, ◌≡◌, refl, sym, ap, ◌∙◌, inl, inr, Bool, true, false, not, ◌&&◌, ◌||◌, Option,
  none, some, List, [], arith, Bool-cases, Option-cases, is_some, In, In-filter, contains,
  contains→In, In→contains, ℤ_eq, ℕ_eq, String_eq, Option_eq, List_eq, get, put, get-put_self,
}
use outbound_gpu_worker_pool.Contracts.{
  capability_ids, Result-cases, Error, worker_not_registered, Result, ok, err, seconds, JobRecord,
  WorkerRecord, WorkerIdentity, LeaseGrant,
}
use outbound_gpu_worker_pool.Assets.{create_output_upload_url}
use outbound_gpu_worker_pool.Service.{Profiles, Settings, Pool}
use outbound_gpu_worker_pool.Service.Leases.{
  or_default, is_draining_worker, effective_ids, is_nil, input_grants, call_of, grant_job,
  lease_effective, lease_to, lease_job,
}
use outbound_gpu_worker_pool.JobStore.Leasing.{leased_record, is_candidate, LeaseCall}
use outbound_gpu_worker_pool.JobStore.Settling.{expire_exhausted}
use outbound_gpu_worker_pool.Enrollment.{WorkerEnrollment}
use outbound_gpu_worker_pool.JobStore.{JobStore}
use outbound_gpu_worker_pool.Service.Admission.{approve, approved_enrollment}
use outbound_gpu_worker_pool.JobStore.Selection.{lease-Selects, Selects, nothing_free, chosen}
use outbound_gpu_worker_pool.Service.Qualification.{unqualified_reason}
use outbound_gpu_worker_pool.Stdlib.{Stdlib}

-- A grant for a leased job, under its id and its token; the job store stays as it is.
granted_job :
    (s : Settings) (i : WorkerIdentity) (secs : ℕ) (r : JobRecord) (t : String) (g : LeaseGrant)
    (p : Pool)
    → r.claim_token ≡ some t
    → (grant_job s i secs (some r) p).0 ≡ ok (some g)
    → (g.job_id ≡ r.job_id)
      × (g.claim_token ≡ t)
      × ((grant_job s i secs (some r) p).1.jobs ≡ p.jobs)
unfolding grant_job
granted_job s i secs r t g p c h =
    elim (Result-cases
      (input_grants r.input_keys (s.clock p.readings + seconds s.grant_ttl_seconds) p.assets)) [
        | inr (e, q) ↦ absurd (err≢ok e (rw (grant_job, c, q) at h))
        | inl (gs, q) ↦ elim (Result-cases (create_output_upload_url r.output_key p.assets)) [
          | inr (e, u) ↦ absurd (err≢ok e (rw (grant_job, c, q, u) at h))
          | inl (url, u) ↦
              let made = granted_eq _ (rw (grant_job, c, q, u) at h) in
              (
                ap (λ (x : LeaseGrant). x.job_id) (sym made),
                ap (λ (x : LeaseGrant). x.claim_token) (sym made),
                rw (grant_job, c, q, u) refl,
              )
        ]
      ]
  where
    err≢ok : (e : Error) → err e ≡ ok (some g) → ⊥
    err≢ok e q = cc

    granted_eq : (x : LeaseGrant) → ok (some x) ≡ ok (some g) → x ≡ g
    granted_eq x q =
        ap
          (λ (y : Result (Option LeaseGrant)). elim y [
            | err e ↦ x
            | ok o ↦ elim o [ none ↦ x | some z ↦ z ]
          ])
          q

-- What the service has made sure of when it grants a lease.
pub record Granted (s : Settings) (i : WorkerIdentity) (asked : List String) (secs : Option ℕ)
    (p : Pool) (g : LeaseGrant) (after : Pool) : Type 0 where
  pub worker : WorkerRecord
  pub registered : get i.worker_id p.registry.workers ≡ some worker
  pub enrollment : WorkerEnrollment
  pub approved : approve s.lib s.enrollments i p.registry ≡ ok enrollment
  pub working : is_draining_worker worker.status ≡ false
  pub qualified : is_some (unqualified_reason s.profiles [] worker.runtime_versions) ≡ false
  pub job : JobRecord
  pub call : LeaseCall
  pub called :
      call
      ≡ call_of i worker
          (effective_ids s.profiles worker asked)
          (or_default secs s.default_lease_seconds)
  pub free : is_candidate s.lib call (s.clock (p.readings + 1)) job ≡ true
  pub asked_for : In job.capability_id asked
  pub offered : In job.capability_id (capability_ids worker)
  pub allowed : ¬ In job.capability_id s.profiles.refused_capability_ids
  pub claimed :
      get job.job_id after.jobs.records
      ≡ some (leased_record call (s.new_token p.draws) (s.clock (p.readings + 1)) job)
  pub job_id : g.job_id ≡ job.job_id
  pub claim_token : g.claim_token ≡ s.new_token p.draws

-- The pool after the sweep and the draw of the token, as `lease` of the store finds it.
abbrev swept : Settings → Pool → Pool
swept s p = record p {
  jobs = (expire_exhausted (s.clock p.readings) p.jobs).1;
  readings = p.readings + 1;
  draws = p.draws + 1;
}

-- The pool after the store's answer.
abbrev answered : Pool → JobStore → Pool
answered p jobs = record p { jobs = jobs; readings = p.readings + 1 }

-- A capability among the effective ones.
effective_ids-offered :
    (q : Profiles) (w : WorkerRecord) (asked : List String) (c : String)
    → In c (effective_ids q w asked)
    → In c asked × In c (capability_ids w) × ¬ In c q.refused_capability_ids
unfolding effective_ids
effective_ids-offered q w asked c i =
    let (among, passes) =
      In-filter (λ x. contains (capability_ids w) x && not (contains q.refused_capability_ids x)) c
        asked i in
    (
      among,
      contains→In (capability_ids w) c (ground (arith, passes)),
      λ refused. absurd (ground (arith, passes, In→contains q.refused_capability_ids c refused)),
    )

candidate-capability :
    (lib : Stdlib) (c : LeaseCall) (now : ℕ) (r : JobRecord)
    → is_candidate lib c now r ≡ true
    → In r.capability_id c.capability_ids
unfolding is_candidate
candidate-capability lib c now r h =
    contains→In c.capability_ids r.capability_id (ground (arith, h))

record Claimed (s : Settings) (c : LeaseCall) (p : Pool) (g : LeaseGrant) (after : Pool)
    : Type 0 where
  job : JobRecord
  free : is_candidate s.lib c (s.clock (p.readings + 1)) job ≡ true
  claimed :
      get job.job_id after.jobs.records
      ≡ some (leased_record c (s.new_token p.draws) (s.clock (p.readings + 1)) job)
  job_id : g.job_id ≡ job.job_id
  claim_token : g.claim_token ≡ s.new_token p.draws

Selects-Claimed :
    (s : Settings) (i : WorkerIdentity) (c : LeaseCall) (secs : ℕ) (p : Pool) (g : LeaseGrant)
    (a : Option JobRecord × JobStore)
    → Selects s.lib c (s.new_token p.draws) (s.clock (p.readings + 1)) (swept s p).jobs a
    → (grant_job s i secs a.0 (answered (swept s p) a.1)).0 ≡ ok (some g)
    → Claimed s c p g (grant_job s i secs a.0 (answered (swept s p) a.1)).1
unfolding grant_job leased_record
Selects-Claimed s i c secs p g a (nothing_free f) h = absurd (none≢some h)
  where
    none≢some : ok none ≡ ok (some g) → ⊥
    none≢some q = cc
Selects-Claimed s i c secs p g a (chosen r m f l) h =
    let t = s.new_token p.draws in
    let now = s.clock (p.readings + 1) in
    let st = (swept s p).jobs in
    let leased = leased_record c t now r in
    let q =
      granted_job s i secs leased t g
        (answered (swept s p) (record { records = put r.job_id leased st.records })) refl h in
    record {
      job = r;
      free = f;
      claimed =
          ap (λ (x : JobStore). get r.job_id x.records) q.2
          ∙ get-put_self r.job_id leased st.records;
      job_id = q.0;
      claim_token = q.1;
    }

-- A lease that the service grants goes to an approved worker that is registered, not draining, and
-- names no refused profile; the job's capability was asked for, is one that the worker has
-- registered, and is not refused; the job is a candidate for the worker, and stands in the store
-- leased to it under the token that the grant carries.
pub lease_job-Granted :
    (s : Settings) (i : WorkerIdentity) (asked : List String) (secs : Option ℕ) (p : Pool)
    (g : LeaseGrant)
    → (lease_job s i asked secs p).0 ≡ ok (some g)
    → Granted s i asked secs p g (lease_job s i asked secs p).1
unfolding lease_job approved_enrollment lease_to lease_effective
lease_job-Granted s i asked secs p g h =
    elim (Result-cases (approve s.lib s.enrollments i p.registry)) [
      | inr (e, q) ↦ absurd (err≢ok e (rw (lease_job, q) at h))
      | inl (x, q) ↦ elim (Option-cases (get i.worker_id p.registry.workers)) [
        | inl n ↦ absurd (err≢ok (worker_not_registered i.worker_id) (rw (lease_job, q, n) at h))
        | inr (w, n) ↦ elim (Bool-cases (barred w)) [
          | inl b ↦ absurd (none≢some (rw (lease_job, q, n, lease_to, b) at h))
          | inr b ↦
              let c =
                call_of i w (effective_ids s.profiles w asked)
                  (or_default secs s.default_lease_seconds) in
              let claim =
                Selects-Claimed s i c (or_default secs s.default_lease_seconds) p g _
                  (lease-Selects s.lib c (s.new_token p.draws) (s.clock (p.readings + 1))
                    (swept s p).jobs)
                  (rw (lease_job, q, n, lease_to, b, lease_effective) at h) in
              let offer =
                effective_ids-offered s.profiles w asked claim.job.capability_id
                  (candidate-capability s.lib c _ claim.job claim.free) in
              let parts = split (is_draining_worker w.status) _ _ b in
              record {
                worker = w;
                registered = n;
                enrollment = x;
                approved = q;
                working = parts.0;
                qualified = parts.1;
                job = claim.job;
                call = c;
                called = refl;
                free = claim.free;
                asked_for = offer.0;
                offered = offer.1;
                allowed = offer.2;
                claimed = rw (lease_job, q, n, lease_to, b, lease_effective) claim.claimed;
                job_id = claim.job_id;
                claim_token = claim.claim_token;
              }
        ]
      ]
    ]
  where
    err≢ok : (e : Error) → err e ≡ ok (some g) → ⊥
    err≢ok e q = cc

    none≢some : ok none ≡ ok (some g) → ⊥
    none≢some q = cc

    barred : WorkerRecord → Bool
    barred w =
        is_draining_worker w.status
        || is_some (unqualified_reason s.profiles [] w.runtime_versions)
        || is_nil (effective_ids s.profiles w asked)

    split : (a b c : Bool) → (a || b || c) ≡ false → (a ≡ false) × (b ≡ false)
    split false false c e = (refl, refl)
    split false true c e = cc
    split true b c e = cc
