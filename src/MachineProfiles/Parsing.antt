-- ===== src/MachineProfiles/Parsing.antt =====
-- `parse_profiles` of machine_profiles.py: the profiles of one worker, from `MVS_WORKER_PROFILE`.
use outbound_gpu_worker_pool.Stdlib.{Stdlib}
use outbound_gpu_worker_pool.Base.{
  String, not, List, [], ◌∷◌, map, if◌then◌else◌, filter, distinct, is_empty, concat, split, ℤ_eq,
  ℕ_eq, String_eq, Option_eq, List_eq, Dict,
}
use outbound_gpu_worker_pool.MachineProfiles.{joined, profile_of, require_qualified, MachineProfile}
use outbound_gpu_worker_pool.Contracts.{◌>>=◌, ◌>>◌, raise_if, value_error, Result, ok}
use outbound_gpu_worker_pool.Service.Leases.{is_nil}

-- `[name.strip() for name in value.split(',') if name.strip()]`
unfoldable pub profile_names : Stdlib → String → List String
profile_names lib value =
    filter (λ (name : String). not (is_empty name)) (map lib.strip (split b',' value))

module _ (table : Dict MachineProfile) where
  -- The names of the profiles that refuse a shared runtime.
  abbrev pub sole_profiles : List String → Result (List String)
  sole_profiles [] = ok []
  sole_profiles (p ∷ ps) = do
    m ← profile_of table p
    refused ← sole_profiles ps
    ok (if m.mixed_mode then refused else p ∷ refused)

  abbrev pub check_shared : List String → Result (Unit {0})
  check_shared [] = ok tt
  check_shared (p ∷ []) = ok tt
  check_shared (p ∷ q ∷ ps) = do
    refused ← sole_profiles (p ∷ q ∷ ps)
    raise_if (not (is_nil refused))
        (value_error (concat (joined refused) " cannot share a runtime with other profiles"))

  abbrev pub check_known : List String → Result (Unit {0})
  check_known [] = ok tt
  check_known (p ∷ ps) = do _ ← profile_of table p; check_known ps

  abbrev pub check_qualified : List String → Result (Unit {0})
  check_qualified [] = ok tt
  check_qualified (p ∷ ps) = require_qualified table p >> check_qualified ps

  unfoldable pub check_profiles : String → List String → Result (List String)
  check_profiles value profiles = do
    check_known profiles
    check_qualified profiles
    raise_if (not (distinct profiles))
        (value_error (concat "MVS_WORKER_PROFILE repeats a profile: " value))
    check_shared profiles
    ok profiles

  unfoldable pub parse_profiles : Stdlib → String → Result (List String)
  unfolding profile_names check_profiles
  parse_profiles lib value = check_profiles value (profile_names lib value)
