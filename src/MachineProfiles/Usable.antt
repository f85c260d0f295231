-- ===== src/MachineProfiles/Usable.antt =====
-- What `parse_profiles` of machine_profiles.py lets a worker run.
use outbound_gpu_worker_pool.Base.{
  ◌<◌, String, ◌≡◌, refl, sym, subst, inl, inr, Bool, true, false, not, Option, none, some, List,
  [], ◌∷◌, arith, if◌then◌else◌, Option-cases, and-true, length, All, In, In→contains, distinct,
  ℤ_eq, ℕ_eq, String_eq, Option_eq, List_eq, Dict, get,
}
use outbound_gpu_worker_pool.MachineProfiles.{
  unset_pins, is_usable, profile_of, unusable_reason, require_qualified, MachineProfile,
}
use outbound_gpu_worker_pool.Contracts.{
  raise_if, >>=-eq-ok, raise_if-eq-ok, Error, profile_not_qualified, Result, ok, err,
}
use outbound_gpu_worker_pool.Service.Leases.{is_nil}
use outbound_gpu_worker_pool.MachineProfiles.Parsing.{
  profile_names, sole_profiles, check_shared, check_known, check_qualified, check_profiles,
  parse_profiles,
}
use outbound_gpu_worker_pool.Stdlib.{Stdlib}

-- No element stands twice.
abbrev pub Once : List String → Type 0
Once [] = Unit
Once (x ∷ xs) = ((In x xs → ⊥) × Once xs)

distinct-Once : (xs : List String) → distinct xs ≡ true → Once xs
distinct-Once [] h = tt
distinct-Once (x ∷ xs) h =
    ((λ again. ground (arith, In→contains xs x again, h)), distinct-Once xs (ground (arith, h)))

module _ (table : Dict MachineProfile) where
  -- The profile stands in the table, is marked qualified, and no pin of its engine is unset.
  abbrev pub Runs : String → Type 0
  Runs profile =
      (m : MachineProfile) × (get profile table ≡ some m)
      × (m.qualified ≡ true)
      × (unset_pins m.engine ≡ [])

  abbrev pub Shares : String → Type 0
  Shares profile = (m : MachineProfile) × (get profile table ≡ some m) × (m.mixed_mode ≡ true)

  profile_of-eq-ok :
      (profile : String) (m : MachineProfile)
      → profile_of table profile ≡ ok m
      → get profile table ≡ some m
  unfolding profile_of
  profile_of-eq-ok profile m h = elim (Option-cases (get profile table)) [
    | inl e ↦ absurd (ground (arith, (rw (profile_of, e) at h)))
    | inr (n, e) ↦ ground (arith, (rw (profile_of, e) at h), e)
  ]

  is_nil-eq : (xs : List String) → is_nil xs ≡ true → xs ≡ []
  is_nil-eq [] h = refl
  is_nil-eq (x ∷ xs) h = absurd (ground (arith, h))

  usable-pins :
      (m : MachineProfile) → is_usable m ≡ true → (m.qualified ≡ true) × (unset_pins m.engine ≡ [])
  unfolding is_usable
  usable-pins m h =
      let both = and-true m.qualified (is_nil (unset_pins m.engine)) h in
      (both.0, is_nil-eq (unset_pins m.engine) both.1)

  -- A reason that is none was given to a usable profile.
  unless-usable :
      (m : MachineProfile) (r : String) (reason : Option String)
      → ok (if is_usable m then none else some r) ≡ ok reason
      → (elim reason as (λ _. Result (Unit {0})) [
        | none ↦ ok tt
        | some t ↦ err (profile_not_qualified t)
      ])
        ≡ ok tt
      → is_usable m ≡ true
  unless-usable m r none given passed = ground (arith, given)
  unless-usable m r (some t) given passed = absurd (ground (arith, passed))

  require_qualified-Runs :
      (profile : String) → require_qualified table profile ≡ ok tt → Runs profile
  unfolding require_qualified unusable_reason
  require_qualified-Runs profile h =
      let (reason, reasoned, passed) = >>=-eq-ok (unusable_reason table profile) _ h in
      let (m, found, given) = >>=-eq-ok (profile_of table profile) _ reasoned in
      let ready = usable-pins m (unless-usable m _ reason given passed) in
      (m, profile_of-eq-ok profile m found, ready.0, ready.1)

  check_qualified-Runs : (ps : List String) → check_qualified table ps ≡ ok tt → All Runs ps
  check_qualified-Runs [] h = tt
  check_qualified-Runs (p ∷ ps) h =
      let (u, first, rest) = >>=-eq-ok (require_qualified table p) _ h in
      (require_qualified-Runs p first, check_qualified-Runs ps rest)

  mixed-when-none :
      (m : MachineProfile) (p : String) (refused : List String)
      → ok (if m.mixed_mode then refused else p ∷ refused) ≡ ok []
      → (m.mixed_mode ≡ true) × (refused ≡ [])
  mixed-when-none m p refused same = ground (arith, same)

  sole_profiles-Shares : (ps : List String) → sole_profiles table ps ≡ ok [] → All Shares ps
  sole_profiles-Shares [] h = tt
  sole_profiles-Shares (p ∷ ps) h =
      let (m, found, more) = >>=-eq-ok (profile_of table p) _ h in
      let (refused, others, same) = >>=-eq-ok (sole_profiles table ps) _ more in
      let mixed = mixed-when-none m p refused same in
      (
        (m, profile_of-eq-ok p m found, mixed.0),
        sole_profiles-Shares ps (subst (λ r. sole_profiles table ps ≡ ok r) mixed.1 others),
      )

  check_shared-Shares :
      (ps : List String) → check_shared table ps ≡ ok tt → 1 < length ps → All Shares ps
  check_shared-Shares [] h many = absurd (omega (arith, many))
  check_shared-Shares (p ∷ []) h many = absurd (omega (arith, many))
  check_shared-Shares (p ∷ q ∷ ps) h many =
      let (refused, sole, rest) = >>=-eq-ok (sole_profiles table (p ∷ q ∷ ps)) _ h in
      sole_profiles-Shares (p ∷ q ∷ ps)
        (subst (λ r. sole_profiles table (p ∷ q ∷ ps) ≡ ok r) (none-refused refused _ rest) sole)
    where
      none-refused :
          (refused : List String) (e : Error)
          → raise_if (not (is_nil refused)) e ≡ ok tt
          → refused ≡ []
      none-refused [] e rest = refl
      none-refused (r ∷ rs) e rest = absurd (ground (arith, rest))

  -- The profiles that `parse_profiles` returns are the names in the setting, in their order. Each of
  -- them is known, marked qualified and without an unset pin, none stands twice, and several of them
  -- share a runtime only where each allows it.
  pub parse_profiles-Runs :
      (lib : Stdlib) (value : String) (ps : List String)
      → parse_profiles table lib value ≡ ok ps
      → (ps ≡ profile_names lib value) × All Runs ps × Once ps × (1 < length ps → All Shares ps)
  unfolding parse_profiles check_profiles
  parse_profiles-Runs lib value ps h =
      let named = profile_names lib value in
      let (a, known, h1) = >>=-eq-ok (check_known table named) _ h in
      let (b, qualified, h2) = >>=-eq-ok (check_qualified table named) _ h1 in
      let (unique, h3) = raise_if-eq-ok (not (distinct named)) _ _ h2 in
      let (c, shared, h4) = >>=-eq-ok (check_shared table named) _ h3 in
      let same = returned named ps h4 in
      subst (λ l. (l ≡ named) × All Runs l × Once l × (1 < length l → All Shares l)) (sym same)
        (
          refl,
          check_qualified-Runs named qualified,
          distinct-Once named (unless unique),
          check_shared-Shares named shared,
        )
    where
      returned : (xs ys : List String) → ok xs ≡ ok ys → ys ≡ xs
      returned xs ys e = ground (arith, e)

      unless : {b : Bool} → not b ≡ false → b ≡ true
      unless e = ground (arith, e)
