-- ===== src/Service.antt =====
-- `WorkerPoolService` of service.py over the in-memory stores: its state, and its methods as
-- actions on it. An action that raises keeps what it has written before.
pub mod Qualification
pub mod Admission
pub mod Authentication
pub mod Workers
pub mod Leases
pub mod Verification
pub mod Jobs
pub mod Views
pub mod Grants
pub mod Ownership
pub mod Publication
pub mod Refinement
pub mod Settlements
pub mod Handouts
pub mod Reports
pub mod Admissions
pub mod History
use outbound_gpu_worker_pool.Base.{ℕ, ◌+◌, String, Bool, true, false, Option, List, Dict}
use outbound_gpu_worker_pool.Contracts.{
  Error, Result, ok, err, Fields, AuditEventType, WorkerIdentity,
}
use outbound_gpu_worker_pool.JobStore.{JobStore}
use outbound_gpu_worker_pool.Registry.{WorkerRegistry}
use outbound_gpu_worker_pool.Audit.{log_event, AuditLog}
use outbound_gpu_worker_pool.Assets.{AssetStore}
use outbound_gpu_worker_pool.RateLimiter.{RateLimiter}
use outbound_gpu_worker_pool.Enrollment.{WorkerEnrollment}
use outbound_gpu_worker_pool.Stdlib.{Stdlib}

-- What machine_profiles.py says of the profiles: an argument of the model.
pub record Profiles : Type 0 where
  pub refused_profiles : List String
  pub refused_capability_ids : List String
  pub refused_recipe_versions : List String
  pub attested_inputs : String → String → List String
  pub input_defaults : String → Fields

-- What the service is built with. The clock's n-th reading and the n-th claim token are arguments
-- too, and so is the authenticator.
pub record Settings : Type 0 where
  pub lib : Stdlib
  pub profiles : Profiles
  pub clock : ℕ → ℕ
  pub new_token : ℕ → String
  pub authenticator : String → Result WorkerIdentity
  pub enrollments : Dict WorkerEnrollment
  pub default_lease_seconds : ℕ
  pub max_verify_bytes : ℕ
  pub grant_ttl_seconds : ℕ
  pub max_auth_concurrency : ℕ

pub record Pool : Type 0 where
  pub jobs : JobStore
  pub registry : WorkerRegistry
  pub audit : AuditLog
  pub assets : AssetStore
  pub worker_limiter : RateLimiter
  pub global_limiter : RateLimiter
  pub pre_auth_limiter : RateLimiter
  pub source_limiter : RateLimiter
  pub auth_audit_limiter : RateLimiter
  pub active_auth : ℕ
  pub readings : ℕ
  pub draws : ℕ

abbrev pub Action : Type 0 → Type 0
Action A = Pool → Result A × Pool

module _ {A : Type 0} where
  abbrev pub return : A → Action A
  return a p = (ok a, p)

  abbrev pub raise : Error → Action A
  raise e p = (err e, p)

  -- A result that may be an error, raised.
  abbrev pub lift : Result A → Action A
  lift r p = (r, p)

abbrev pub continue : {A B : Type 0} → Result A × Pool → (A → Action B) → Result B × Pool
continue (err e, p) f = (err e, p)
continue (ok a, p) f = f a p

infixl 5 ◌>>=◌ ◌>>◌
abbrev pub ◌>>=◌ : {A B : Type 0} → Action A → (A → Action B) → Action B
◌>>=◌ m f p = continue (m p) f

abbrev pub ◌>>◌ : {B : Type 0} → Action (Unit {0}) → Action B → Action B
◌>>◌ m k p = continue (m p) (λ _. k)

abbrev pub fail_if : Bool → Error → Action (Unit {0})
fail_if true e p = (err e, p)
fail_if false e p = (ok tt, p)

abbrev pub gets : {A : Type 0} → (Pool → A) → Action A
gets f p = (ok (f p), p)

-- `datetime.now(UTC)` and `uuid4().hex`
abbrev pub read_clock : Settings → Action ℕ
read_clock s p = (ok (s.clock p.readings), record p { readings = p.readings + 1 })

abbrev pub draw_token : Settings → Action String
draw_token s p = (ok (s.new_token p.draws), record p { draws = p.draws + 1 })

-- A call of the job store, which reads the clock itself.
abbrev pub on_jobs : {A : Type 0} → Settings → (ℕ → JobStore → A × JobStore) → Action A
on_jobs s f p =
    let (a, jobs) = f (s.clock p.readings) p.jobs in
    (ok a, record p { jobs = jobs; readings = p.readings + 1 })

abbrev pub on_registry :
    {A : Type 0} → Settings → (ℕ → WorkerRegistry → A × WorkerRegistry) → Action A
on_registry s f p =
    let (a, registry) = f (s.clock p.readings) p.registry in
    (ok a, record p { registry = registry; readings = p.readings + 1 })

abbrev pub record_event :
    Settings → AuditEventType → Option String → Option String → Fields → Action (Unit {0})
record_event s kind worker_id job_id detail p = (
  ok tt,
  record p {
    audit = log_event kind worker_id job_id detail (s.clock p.readings) p.audit;
    readings = p.readings + 1;
  },
)
