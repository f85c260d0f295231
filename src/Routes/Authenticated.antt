-- ===== src/Routes/Authenticated.antt =====
-- Authentication raises only what the routes' table has.
use outbound_gpu_worker_pool.Base.{
  ◌+◌, String, ◌≡◌, refl, subst, ◌⊎◌, inl, inr, Bool, true, false, not, ◌||◌, Option, none, some,
  leb,
}
use outbound_gpu_worker_pool.Contracts.{
  Result-cases, Error, worker_auth_error, worker_identity_mismatch, worker_auth_busy, rate_limited,
  Result, ok, err, AuditEventType, auth_rejected, rate_limited_event, WorkerIdentity,
}
use outbound_gpu_worker_pool.Registry.{WorkerRegistry}
use outbound_gpu_worker_pool.Service.{
  ◌>>◌, ◌>>=◌, Action, raise, continue, fail_if, gets, Settings, Pool,
}
use outbound_gpu_worker_pool.Service.Admission.{approved_enrollment}
use outbound_gpu_worker_pool.Routes.{mapped_error}
use outbound_gpu_worker_pool.Service.Authentication.{
  allow_source, allow_pre_auth, allow_worker, allow_global, audit_if, audit_auth, then_ask, both,
  if_allowed, authenticated, on_auth_error, handled, oversized, credential, unless_oversized,
  authenticate,
}
use outbound_gpu_worker_pool.RateLimiter.{allow}
use outbound_gpu_worker_pool.Routes.Raised.{
  IsMapped, IsAuthError, IfRaised, HoldsEnrollments, IsSafe, continue-Safe,
  approved_enrollment-Safe,
}

-- What an authenticator raises, by its contract: that the credential is not valid, or that it is
-- busy.
abbrev pub RaisesAuthErrors : Settings → Type 0
RaisesAuthErrors s = (authorization : String) → IfRaised IsAuthError (s.authenticator authorization)

module _ (s : Settings) (st : WorkerRegistry) (enrolls : HoldsEnrollments s st) where
  -- Two limiters, the second asked where the first allows.
  both-Safe :
      (m k : Action Bool) (p : Pool)
      → IsSafe st (m p)
      → ((p : Pool) → p.registry ≡ st → IsSafe st (k p))
      → IsSafe st (both s m k p)
  both-Safe m k p first second =
      continue-Safe st (m p).0 (m p).1 (then_ask s k) first (λ b. asked b (m p).1 first.0)
    where
      asked : (b : Bool) (p : Pool) → p.registry ≡ st → IsSafe st (then_ask s k b p)
      asked true p same = second p same
      asked false p same = (same, tt)

  audited-Safe :
      (sampled : Bool) (kind : AuditEventType) (worker_id : Option String) (p : Pool)
      → p.registry ≡ st
      → IsSafe st (audit_if s sampled kind worker_id p)
  audited-Safe true kind worker_id p same = (same, tt)
  audited-Safe false kind worker_id p same = (same, tt)

  audit_auth-Safe :
      (kind : AuditEventType) (worker_id : Option String) (p : Pool)
      → p.registry ≡ st
      → IsSafe st (audit_auth s kind worker_id p)
  unfolding audit_auth
  audit_auth-Safe kind worker_id p same =
      audited-Safe (allow "*" (s.clock p.readings) p.auth_audit_limiter).0 kind worker_id _ same

  refused-Safe :
      (e : Error) (p : Pool)
      → p.registry ≡ st
      → IsMapped e
      → (kind : AuditEventType) (worker_id : Option String)
      → IsSafe {A = WorkerIdentity} st (continue (audit_auth s kind worker_id p) (λ _. raise e))
  refused-Safe e p same mapped kind worker_id =
      let a = audit_auth s kind worker_id p in
      let safe = audit_auth-Safe kind worker_id p same in
      continue-Safe st a.0 a.1 (λ _. raise e) safe (λ _. (safe.0, mapped))

  on_auth_error-Safe :
      (e : Error) (p : Pool)
      → p.registry ≡ st
      → IsMapped e ⊎ IsAuthError e
      → IsSafe st (on_auth_error s e p)
  unfolding on_auth_error mapped_error
  on_auth_error-Safe (worker_auth_busy m) p same known = (same, refl)
  on_auth_error-Safe (worker_auth_error m) p same known =
      refused-Safe (worker_auth_error m) p same refl auth_rejected none
  on_auth_error-Safe (worker_identity_mismatch m) p same known =
      refused-Safe (worker_identity_mismatch m) p same refl auth_rejected none
  on_auth_error-Safe e p same (inl mapped) = (same, mapped)
  on_auth_error-Safe e p same (inr allowed) = absurd allowed

  if_allowed-Safe :
      (i : WorkerIdentity) (allowed : Bool) (p : Pool)
      → p.registry ≡ st
      → IsSafe st (if_allowed s i allowed p)
  unfolding mapped_error
  if_allowed-Safe i true p same = (same, tt)
  if_allowed-Safe i false p same =
      refused-Safe (rate_limited i.worker_id) p same refl rate_limited_event (some i.worker_id)

  -- The rest of the `try`, once the credential has an identity.
  abbrev identified : WorkerIdentity → Action WorkerIdentity
  unfolding approved_enrollment audit_auth
  identified i = approved_enrollment s i >>= λ _.
      both s (allow_worker s i.worker_id) (allow_global s) >>= if_allowed s i

  identified-Safe : (i : WorkerIdentity) (p : Pool) → p.registry ≡ st → IsSafe st (identified i p)
  unfolding approved_enrollment identified
  identified-Safe i p same =
      let approved = approved_enrollment s i p in
      continue-Safe st approved.0 p
        (λ _. both s (allow_worker s i.worker_id) (allow_global s) >>= if_allowed s i)
        (approved_enrollment-Safe s st enrolls i p same)
        (λ _.
          let b = both s (allow_worker s i.worker_id) (allow_global s) p in
          let safe =
            both-Safe (allow_worker s i.worker_id) (allow_global s) p (same, tt)
              (λ p same. (same, tt)) in
          continue-Safe st b.0 b.1 (if_allowed s i) safe
            (λ allowed. if_allowed-Safe i allowed b.1 safe.0))

  handled-Safe :
      (r : Result WorkerIdentity) (p : Pool) → IsSafe st (r, p) → IsSafe st (handled s (r, p))
  handled-Safe (ok i) p safe = safe
  handled-Safe (err e) p safe = on_auth_error-Safe e p safe.0 (inl safe.1)

  module _ (raises : RaisesAuthErrors s) where
    handled-authenticated-Safe :
        (authorization : String) (p : Pool)
        → p.registry ≡ st
        → IsSafe st (handled s (authenticated s authorization p))
    unfolding authenticated
    handled-authenticated-Safe authorization p same =
        elim (Result-cases (s.authenticator authorization)) [
          | inl (i, e) ↦
              rw (authenticated, e)
                (handled-Safe (identified i p).0 (identified i p).1 (identified-Safe i p same))
          | inr (raised, e) ↦
              rw (authenticated, e)
                (on_auth_error-Safe raised p same
                  (inr (subst (IfRaised IsAuthError) e (raises authorization))))
        ]

    unless_oversized-Safe :
        (authorization : Option String) (over : Bool) (p : Pool)
        → p.registry ≡ st
        → IsSafe st (unless_oversized s authorization over p)
    unfolding mapped_error
    unless_oversized-Safe authorization true p same =
        refused-Safe (worker_auth_error "missing or oversized credential") p same refl auth_rejected
          none
    unless_oversized-Safe authorization false p same =
        handled-authenticated-Safe (credential s authorization)
          (record p { active_auth = p.active_auth + 1 }) same

    pub authenticate-Safe :
        (authorization : Option String) (source : String) (p : Pool)
        → p.registry ≡ st
        → IsSafe st (authenticate s authorization source p)
    unfolding authenticate mapped_error
    authenticate-Safe authorization source p same =
        let b = both s (allow_source s source) (allow_pre_auth s) p in
        let safe =
          both-Safe (allow_source s source) (allow_pre_auth s) p (same, tt)
            (λ p same. (same, tt)) in
        continue-Safe st b.0 b.1
          (λ admitted. gets (λ p. leb s.max_auth_concurrency p.active_auth) >>= λ full.
            fail_if (not admitted || full) (rate_limited "pre-authentication admission limit")
            >> unless_oversized s authorization (oversized s authorization))
          safe
          (λ admitted. gate (not admitted || leb s.max_auth_concurrency b.1.active_auth) b.1 safe.0)
      where
        gate :
            (raises : Bool) (p : Pool)
            → p.registry ≡ st
            → IsSafe st (
                continue
                  (fail_if raises (rate_limited "pre-authentication admission limit") p)
                  (λ _. unless_oversized s authorization (oversized s authorization)))
        gate true p same = (same, refl)
        gate false p same = unless_oversized-Safe authorization (oversized s authorization) p same
