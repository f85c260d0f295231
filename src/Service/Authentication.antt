-- ===== src/Service/Authentication.antt =====
-- `authenticate` and `_audit_auth` of service.py.
use outbound_gpu_worker_pool.Base.{
  ◌+◌, ◌-◌, String, Bool, true, false, not, ◌||◌, Option, none, some, ltb, leb, len,
}
use outbound_gpu_worker_pool.Contracts.{
  Error, worker_auth_error, worker_identity_mismatch, worker_auth_busy, rate_limited, Result, ok,
  err, str, end, field, AuditEventType, auth_rejected, rate_limited_event, WorkerIdentity,
}
use outbound_gpu_worker_pool.RateLimiter.{allow}
use outbound_gpu_worker_pool.Service.{
  ◌>>◌, ◌>>=◌, Action, return, raise, lift, fail_if, gets, record_event, Settings, Pool,
}
use outbound_gpu_worker_pool.Service.Admission.{approved_enrollment}

abbrev auth_reason : AuditEventType → String
auth_reason auth_rejected = "invalid_credential"
auth_reason _ = "admission_rejected"

module _ (s : Settings) where
  abbrev pub allow_source : String → Action Bool
  allow_source key p =
      let (b, l) = allow key (s.clock p.readings) p.source_limiter in
      (ok b, record p { source_limiter = l; readings = p.readings + 1 })

  abbrev pub allow_pre_auth : Action Bool
  allow_pre_auth p =
      let (b, l) = allow "*" (s.clock p.readings) p.pre_auth_limiter in
      (ok b, record p { pre_auth_limiter = l; readings = p.readings + 1 })

  abbrev pub allow_worker : String → Action Bool
  allow_worker key p =
      let (b, l) = allow key (s.clock p.readings) p.worker_limiter in
      (ok b, record p { worker_limiter = l; readings = p.readings + 1 })

  abbrev pub allow_global : Action Bool
  allow_global p =
      let (b, l) = allow "*" (s.clock p.readings) p.global_limiter in
      (ok b, record p { global_limiter = l; readings = p.readings + 1 })

  abbrev pub allow_auth_audit : Action Bool
  allow_auth_audit p =
      let (b, l) = allow "*" (s.clock p.readings) p.auth_audit_limiter in
      (ok b, record p { auth_audit_limiter = l; readings = p.readings + 1 })

  abbrev pub audit_if : Bool → AuditEventType → Option String → Action (Unit {0})
  audit_if true kind worker_id =
      record_event s kind worker_id none (field "reason" (str (auth_reason kind)) end)
  audit_if false kind worker_id = return tt

  unfoldable pub audit_auth : AuditEventType → Option String → Action (Unit {0})
  audit_auth kind worker_id = do sampled ← allow_auth_audit; audit_if sampled kind worker_id

  -- `a() and b()` for two limiters: the second is asked only where the first allows.
  abbrev pub then_ask : Action Bool → Bool → Action Bool
  then_ask k true = k
  then_ask k false = return false

  abbrev pub both : Action Bool → Action Bool → Action Bool
  both m k = m >>= then_ask k

  abbrev pub if_allowed : WorkerIdentity → Bool → Action WorkerIdentity
  if_allowed identity true = return identity
  if_allowed identity false =
      audit_auth rate_limited_event (some identity.worker_id)
      >> raise (rate_limited identity.worker_id)

  -- The body of the `try`.
  unfoldable pub authenticated : String → Action WorkerIdentity
  unfolding approved_enrollment audit_auth
  authenticated authorization = do
    identity ← lift (s.authenticator authorization)
    _ ← approved_enrollment s identity
    allowed ← both (allow_worker identity.worker_id) allow_global
    if_allowed identity allowed

  -- The two `except` clauses; an identity mismatch is an authentication error.
  unfoldable pub on_auth_error : Error → Action WorkerIdentity
  unfolding audit_auth
  on_auth_error (worker_auth_busy m) = raise (rate_limited "identity verification is busy")
  on_auth_error (worker_auth_error m) = audit_auth auth_rejected none >> raise (worker_auth_error m)
  on_auth_error (worker_identity_mismatch m) =
      audit_auth auth_rejected none >> raise (worker_identity_mismatch m)
  on_auth_error e = raise e

  abbrev pub handled : Result WorkerIdentity × Pool → Result WorkerIdentity × Pool
  handled (ok i, p) = (ok i, p)
  handled (err e, p) = on_auth_error e p

  -- The `finally` clause.
  abbrev pub left : {A : Type 0} → Result A × Pool → Result A × Pool
  left (r, p) = (r, record p { active_auth = p.active_auth - 1 })

  abbrev pub guarded : String → Action WorkerIdentity
  guarded authorization p =
      left (handled (authenticated authorization (record p { active_auth = p.active_auth + 1 })))

  abbrev pub oversized : Option String → Bool
  oversized none = true
  oversized (some a) = ltb 8192 (len a)

  abbrev pub credential : Option String → String
  credential none = ""
  credential (some a) = a

  abbrev pub unless_oversized : Option String → Bool → Action WorkerIdentity
  unless_oversized authorization true =
      audit_auth auth_rejected none >> raise (worker_auth_error "missing or oversized credential")
  unless_oversized authorization false = guarded (credential authorization)

  unfoldable pub authenticate : Option String → String → Action WorkerIdentity
  unfolding authenticated on_auth_error audit_auth
  authenticate authorization source = do
    admitted ← both (allow_source source) allow_pre_auth
    full ← gets (λ p. leb s.max_auth_concurrency p.active_auth)
    fail_if (not admitted || full) (rate_limited "pre-authentication admission limit")
    unless_oversized authorization (oversized authorization)
