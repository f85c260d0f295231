-- ===== src/Service/Publication.antt =====
-- What a completion through the service has verified.
use outbound_gpu_worker_pool.Base.{
  ℕ, ◌≤◌, String, ◌≡◌, refl, sym, ◌∙◌, subst, inl, inr, Bool, true, false, not, Option, none, some,
  List, [], ◌∷◌, arith, eq_iff, Option-cases, is_some, length, ℤ_eq, ◌==◌, ℕ_eq, String_eq,
  Option_eq, List_eq, get, get-put_self,
}
use outbound_gpu_worker_pool.Contracts.{
  Result-cases, Error, completion_rejected, Result, ok, err, JobRecord, WorkerIdentity,
  OutputManifest,
}
use outbound_gpu_worker_pool.Assets.{describe, read, read_limited}
use outbound_gpu_worker_pool.Service.{Settings, Pool}
use outbound_gpu_worker_pool.Service.Jobs.{completion, rejected, accept_output, complete_job}
use outbound_gpu_worker_pool.Service.Ownership.{
  owned_job-cases, Found-Owns, perform, stale, Owns, Found, finish,
}
use outbound_gpu_worker_pool.JobStore.Settling.{leased_job, completed_record, complete}
use outbound_gpu_worker_pool.Service.Qualification.{unqualified_reason}
use outbound_gpu_worker_pool.JobStore.Keyed.{Keyed, get-job_id}
use outbound_gpu_worker_pool.JobStore.Evolution.{leased_job-cases}
use outbound_gpu_worker_pool.Service.Verification.{
  reject_if, then_check, verify_echo, verify_bytes, verify_output,
}

-- The bytes under a key are those that the manifest attests, and no more than the bound.
pub record Attested (s : Settings) (m : OutputManifest) (key : String) (p : Pool) : Type 0 where
  pub content : List ℕ
  pub stored : get key p.assets.assets ≡ some content
  pub size : length content ≡ m.byte_length
  pub bounded : length content ≤ s.max_verify_bytes
  pub digest : s.lib.sha256_hex content ≡ m.sha256

-- The manifest answers the request of the job.
pub record Echoes (m : OutputManifest) (r : JobRecord) : Type 0 where
  pub output_key : m.output_key ≡ r.output_key
  pub idempotency_key : m.idempotency_key ≡ r.idempotency_key
  pub request_digest : m.request_digest ≡ r.request_digest
  pub publication_mode : m.publication_mode ≡ "immutable_create_once"

then_check-eq-ok : (m k : Result (Unit {0})) → then_check m k ≡ ok tt → (m ≡ ok tt) × (k ≡ ok tt)
then_check-eq-ok (ok a) k h = (refl, h)
then_check-eq-ok (err e) k h = cc

reject_if-eq-ok : (b : Bool) (reason : String) → reject_if b reason ≡ ok tt → b ≡ false
reject_if-eq-ok true reason h = cc
reject_if-eq-ok false reason h = refl

same_text : (a b : String) (reason : String) → reject_if (not (a == b)) reason ≡ ok tt → a ≡ b
same_text a b reason h = ground (arith, eq_iff a b, reject_if-eq-ok (not (a == b)) reason h)

verify_echo-Echoes : (r : JobRecord) (m : OutputManifest) → verify_echo r m ≡ ok tt → Echoes m r
unfolding verify_echo
verify_echo-Echoes r m h =
    let a = then_check-eq-ok _ _ h in
    let b = then_check-eq-ok _ _ a.1 in
    let c = then_check-eq-ok _ _ b.1 in
    record {
      output_key = same_text _ _ _ a.0;
      idempotency_key = same_text _ _ _ b.0;
      request_digest = same_text _ _ _ c.0;
      publication_mode = same_text _ _ _ c.1;
    }

verify_bytes-Attested :
    (s : Settings) (r : JobRecord) (m : OutputManifest) (p : Pool)
    → verify_bytes s r m p ≡ ok tt
    → Attested s m r.output_key p
unfolding verify_bytes describe read_limited read
verify_bytes-Attested s r m p h = elim (Option-cases (get r.output_key p.assets.assets)) [
  | inl n ↦ absurd (ground (arith, h, n))
  | inr (content, g) ↦ record {
    content = content;
    stored = g;
    size = ground (arith, h, g);
    bounded = ground (arith, h, g);
    digest = ground (arith, h, g, eq_iff (s.lib.sha256_hex content) m.sha256);
  }
]

verify_output-Attested :
    (s : Settings) (r : JobRecord) (m : OutputManifest) (p : Pool)
    → verify_output s r m p ≡ ok tt
    → (unqualified_reason s.profiles (r.capability_id ∷ []) r.requirements.runtime_versions ≡ none)
      × Echoes m r
      × Attested s m r.output_key p
unfolding verify_output
verify_output-Attested s r m p h =
    let a = then_check-eq-ok _ _ h in
    let b = then_check-eq-ok _ _ a.1 in
    let c = then_check-eq-ok _ _ b.1 in
    (
      is_some-none _ (reject_if-eq-ok _ _ a.0),
      verify_echo-Echoes r m c.0,
      verify_bytes-Attested s r m p c.1,
    )
  where
    is_some-none : (o : Option String) → is_some o ≡ false → o ≡ none
    is_some-none none e = refl
    is_some-none (some x) e = cc

-- What the service has made sure of when it accepts a completion.
pub record Published (s : Settings) (i : WorkerIdentity) (job_id token : String)
    (m : OutputManifest) (p : Pool) (a : Result (Unit {0}) × Pool) : Type 0 where
  pub job : JobRecord
  pub owner : Owns s i job_id token p job
  pub qualified :
      unqualified_reason s.profiles (job.capability_id ∷ []) job.requirements.runtime_versions
      ≡ none
  pub echoes : Echoes m job
  pub attested : Attested s m job.output_key p
  pub completed :
      get job_id a.1.jobs.records
      ≡ some (completed_record (completion s m) (s.clock p.readings) job)

not-ok : {A : Type 0} (a : Result A × Pool) (e : Error) {x : A} → a.0 ≡ err e → a.0 ≡ ok x → ⊥
not-ok a e h k = cc

rejected-raises :
    (s : Settings) (i : WorkerIdentity) (r : JobRecord) (token : String) (e : Error) (p : Pool)
    → (f : Error) × ((rejected s i r token e p).0 ≡ err f)
unfolding rejected
rejected-raises s i r token (completion_rejected reason) p = (completion_rejected reason, refl)
rejected-raises s i r token e p = (e, refl)

accepted :
    (s : Settings) (i : WorkerIdentity) (job_id token : String) (m : OutputManifest) (p : Pool)
    (r : JobRecord)
    → leased_job r.job_id token p.jobs ≡ some r
    → get r.job_id (accept_output s i job_id r token m p).1.jobs.records
      ≡ some (completed_record (completion s m) (s.clock p.readings) r)
unfolding accept_output complete
accepted s i job_id token m p r n = rw n (get-put_self r.job_id _ p.jobs.records)

-- A completion that the service accepts comes from the holder of the job's lease and answers its
-- request; the asset store holds the output, of the attested size and digest and within the
-- verification bound; no refused profile is in play; and the job is completed with just that. (The
-- job store is keyed by the ids of its jobs.)
pub complete_job-Published :
    (s : Settings) (i : WorkerIdentity) (job_id token : String) (m : OutputManifest) (p : Pool)
    → Keyed p.jobs.records
    → (complete_job s i job_id token m p).0 ≡ ok tt
    → Published s i job_id token m p (complete_job s i job_id token m p)
unfolding complete_job perform
complete_job-Published s i job_id token m p keyed h = elim (owned_job-cases s i job_id p) [
  | inl (e, q) ↦ absurd (not-ok (complete_job s i job_id token m p) e (rw (complete_job, q) refl) h)
  | inr (r, f) ↦ elim (Result-cases (verify_output s r m p)) [
    | inr (e, v) ↦
        let x = rejected-raises s i r token e p in
        absurd
          (not-ok (complete_job s i job_id token m p) x.0 (rw (complete_job, f.returned, v) x.1) h)
    | inl (a, v) ↦ elim (leased_job-cases job_id token p.jobs) [
      | inl n ↦
          let x = stale s i job_id token (finish m) p r f.returned (name r f) n in
          absurd (not-ok (complete_job s i job_id token m p) x.error x.raised h)
      | inr (held, e, g, u, c) ↦
          let t = verify_output-Attested s r m p v in
          record {
            job = r;
            owner = Found-Owns f (held, e, g, u, c);
            qualified = t.0;
            echoes = t.1;
            attested = t.2;
            completed =
                rw (complete_job, f.returned, v)
                  (subst
                    (λ (x : String).
                      get x (accept_output s i job_id r token m p).1.jobs.records
                      ≡ some (completed_record (completion s m) (s.clock p.readings) r))
                    (name r f)
                    (accepted s i job_id token m p r (
                      subst (λ (x : String). leased_job x token p.jobs ≡ some r) (sym (name r f))
                        (e ∙ sym g ∙ f.stored))));
          }
    ]
  ]
]
  where
    name : (r : JobRecord) → Found s i job_id p r → r.job_id ≡ job_id
    name r f = get-job_id job_id r p.jobs.records keyed f.stored
