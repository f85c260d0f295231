-- ===== src/Enrollment.antt =====
-- enrollment.py: which identity may be which worker, and for which tenant. `enrollments_from_json`
-- gets the parsed object, with its keys as they stand in the text.
pub mod Subjects
use outbound_gpu_worker_pool.Base.{
  ℕ, String, Bool, false, not, ◌&&◌, ◌||◌, Option, none, some, List, [], ◌∷◌, leb, contains, codes,
  len, ℤ_eq, ◌==◌, ℕ_eq, String_eq, Option_eq, List_eq, Dict,
}
use outbound_gpu_worker_pool.Contracts.{
  ◌>>=◌, ◌>>◌, raise_if, Error, value_error, Result, ok, err, max_tenant_id_length, field_get,
  Value, null, str, dict, Fields, end, field, or_raise,
}
use outbound_gpu_worker_pool.Stdlib.{Stdlib}
use outbound_gpu_worker_pool.Regex.{fullmatch, upto, Regex, class, seq}

-- `[a-z0-9][a-z0-9-]{0,127}`
abbrev pub worker_id_pattern : Regex
worker_id_pattern =
    seq (class ((b'a', b'z') ∷ (b'0', b'9') ∷ []))
      (upto 127 (class ((b'a', b'z') ∷ (b'0', b'9') ∷ (b'-', b'-') ∷ [])))

unfoldable pub is_worker_id : String → Bool
unfolding fullmatch
is_worker_id s = fullmatch worker_id_pattern (codes s)

pub record WorkerEnrollment : Type 0 where
  pub identity_subject : String
  pub tenant_id : Option String

module _ (lib : Stdlib) where
  abbrev pub bad_name : ℕ → String → Bool
  bad_name maximum s = not (leb 1 (len s) && leb (len s) maximum) || not (s == lib.strip s)

  abbrev pub bad_tenant : Option String → Bool
  bad_tenant none = false
  bad_tenant (some t) = bad_name max_tenant_id_length t

  -- `WorkerEnrollment(...)`, with `__post_init__`
  unfoldable pub new_enrollment : String → Option String → Result WorkerEnrollment
  new_enrollment subject tenant = do
    raise_if (bad_name 255 subject)
        (value_error "enrollment needs a nonempty, bounded identity subject")
    raise_if (bad_tenant tenant) (value_error "enrollment tenant must be a bounded string or null")
    ok (record { identity_subject = subject; tenant_id = tenant })

-- The loop of `validate_enrollments`, with the subjects that it has met.
unfoldable pub check_enrollments : List String → Dict WorkerEnrollment → Result (Unit {0})
check_enrollments subjects [] = ok tt
check_enrollments subjects ((worker_id, e) ∷ d) = do
  raise_if (not (is_worker_id worker_id)) (value_error "invalid enrolled worker id")
  raise_if (contains subjects e.identity_subject)
      (value_error "an identity subject cannot enroll two workers")
  check_enrollments (e.identity_subject ∷ subjects) d

unfoldable pub validate_enrollments : Dict WorkerEnrollment → Result (Dict WorkerEnrollment)
unfolding check_enrollments
validate_enrollments d = check_enrollments [] d >> ok d

-- `unique_object`
unfoldable pub unique_keys : List String → Fields → Result (Unit {0})
unique_keys met end = ok tt
unique_keys met (field k v fs) = do
  raise_if (contains met k) (value_error "duplicate enrollment configuration key")
  unique_keys (k ∷ met) fs

abbrev invalid_configuration : Error
invalid_configuration = value_error "invalid OGWP_WORKER_ENROLLMENTS configuration"

-- `set(entry) == {"identity_subject", "tenant_id"}`, for an entry with no key twice.
abbrev names_two : Fields → Bool
names_two (field j v (field k w end)) =
    (j == "identity_subject" && k == "tenant_id") || (j == "tenant_id" && k == "identity_subject")
names_two _ = false

abbrev text? : Option Value → Option String
text? (some (str s)) = some s
text? _ = none

abbrev tenant? : Option Value → Option (Option String)
tenant? (some null) = some none
tenant? (some (str s)) = some (some s)
tenant? _ = none

module _ (lib : Stdlib) where
  unfoldable pub entry_from_json : Value → Result WorkerEnrollment
  unfolding new_enrollment unique_keys field_get
  entry_from_json (dict fs) = do
    unique_keys [] fs
    raise_if (not (names_two fs)) invalid_configuration
    subject ← or_raise (text? (field_get "identity_subject" fs)) invalid_configuration
    tenant ← or_raise (tenant? (field_get "tenant_id" fs)) invalid_configuration
    new_enrollment lib subject tenant
  entry_from_json _ = err invalid_configuration

  unfoldable pub entries_from_json : Fields → Result (Dict WorkerEnrollment)
  unfolding entry_from_json
  entries_from_json end = ok []
  entries_from_json (field worker_id v fs) = do
    e ← entry_from_json v
    d ← entries_from_json fs
    ok ((worker_id, e) ∷ d)

  -- Any `ValueError` on the way becomes the one error that names no value.
  abbrev masked {ℓ} : {A : Type ℓ} → Result A → Result A
  masked (ok a) = ok a
  masked (err e) = err invalid_configuration

  unfoldable pub enrollments_from_json : Option Value → Result (Dict WorkerEnrollment)
  unfolding entries_from_json validate_enrollments unique_keys
  enrollments_from_json none = ok []
  enrollments_from_json (some (dict fs)) =
      masked (unique_keys [] fs >> entries_from_json fs >>= validate_enrollments)
  enrollments_from_json (some _) = err invalid_configuration
