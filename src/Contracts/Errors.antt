-- ===== src/Contracts/Errors.antt =====
-- The exceptions of contracts.py, service.py, plugins.py and agent.py as one type, and the result of a call
-- that may raise. A `ValueError` or `TypeError` carries its message.
use outbound_gpu_worker_pool.Base.{ℕ, String, ◌≡◌, refl, ◌⊎◌, inl, inr, Bool, true, false, Option}

pub data Error : Type 0 where
  value_error type_error : String → Error
  worker_auth_error : String → Error
  worker_identity_mismatch : String → Error
  worker_auth_busy : String → Error
  identity_subject_taken : String → Error
  worker_tenant_mismatch : String → Error
  idempotency_conflict : String → Error
  profile_not_qualified : String → Error
  asset_not_found : String → Error
  asset_too_large : String → ℕ → Option ℕ → Error
  asset_storage_unavailable : String → Error
  rate_limited : String → Error
  worker_revoked : String → Error
  worker_mismatch : String → Error
  worker_not_registered : String → Error
  job_not_found : String → Error
  stale_lease : String → Error
  completion_rejected : String → Error
  transfer_error : String → Error
  plugin_request_rejected : String → Error
  -- `httpx.HTTPError` and any other exception, by the name of its class
  http_error foreign_error : String → Error

pub data Result {ℓ} (A : Type ℓ) : Type ℓ where
  ok : A → Result A
  err : Error → Result A

-- The next step of a `do` block; an error skips it.
infixl 5 ◌>>=◌ ◌>>◌
abbrev pub ◌>>=◌ {ℓ κ} : {X : Type ℓ} {Y : Type κ} → Result X → (X → Result Y) → Result Y
err raised >>= next = err raised
ok value >>= next = next value

-- The next step after a check, which has no value.
abbrev pub ◌>>◌ {κ} : {Y : Type κ} → Result (Unit {0}) → Result Y → Result Y
check >> next = check >>= λ _. next

-- `if b: raise e`
abbrev pub raise_if : Bool → Error → Result (Unit {0})
raise_if true e = err e
raise_if false e = ok tt

-- A block that returns: what its first step gave, and that the rest returned.
pub >>=-eq-ok {ℓ κ} :
    {X : Type ℓ} {Y : Type κ} (step : Result X) (next : X → Result Y) {last : Y}
    → (step >>= next) ≡ ok last
    → (given : X) × (step ≡ ok given) × (next given ≡ ok last)
>>=-eq-ok (err raised) next returned = cc
>>=-eq-ok (ok given) next returned = (given, refl, returned)

pub raise_if-eq-ok {κ} :
    {Y : Type κ} (raises : Bool) (e : Error) (rest : Result Y) {last : Y}
    → (raise_if raises e >> rest) ≡ ok last
    → (raises ≡ false) × (rest ≡ ok last)
raise_if-eq-ok false e rest returned = (refl, returned)
raise_if-eq-ok true e rest returned = cc

pub Result-cases {ℓ} :
    {A : Type ℓ} (r : Result A) → ((a : A) × (r ≡ ok a)) ⊎ ((e : Error) × (r ≡ err e))
Result-cases (ok a) = inl (a, refl)
Result-cases (err e) = inr (e, refl)
