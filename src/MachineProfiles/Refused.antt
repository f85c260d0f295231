-- ===== src/MachineProfiles/Refused.antt =====
-- The service and the profiles: `_unqualified` of service.py, and what passes its test where the
-- profile module is installed.
use outbound_gpu_worker_pool.MachineProfiles.{
  profile_capability_ids, is_usable, profile_version, MachineProfile, Package,
}
use outbound_gpu_worker_pool.MachineProfiles.Versions.{
  recipe_name, recipe_key, add_profile, unqualified, Unqualified,
}
use outbound_gpu_worker_pool.Base.{
  String, ◌≡◌, refl, sym, ap, subst, ◌⊎◌, inl, inr, true, false, Option, none, some, List, [], ◌∷◌,
  ◌++◌, map, arith, eq_iff, Bool-cases, Option-cases, In, contains, In→contains, partition, ℤ_eq,
  ℕ_eq, String_eq, Option_eq, List_eq, Dict, get, values, keys,
}
use outbound_gpu_worker_pool.Service.{Profiles}
use outbound_gpu_worker_pool.Contracts.{>>=-eq-ok, ok}
use outbound_gpu_worker_pool.Service.Qualification.{
  refused_capability, names_refused, refused_version, version_reason, unqualified_reason,
}
use outbound_gpu_worker_pool.EngineRecipes.Mesh.{engine_recipes}
use outbound_gpu_worker_pool.EngineRecipes.{flattened, recipe_capability_ids}

-- What the service takes from `unqualified()`.
unfoldable pub refusing : Unqualified → Profiles → Profiles
refusing u q = record q {
  refused_profiles = u.profiles;
  refused_capability_ids = u.capability_ids;
  refused_recipe_versions = u.recipe_versions;
}

-- What the service refuses where the profile module is not installed: every engine's capabilities.
unfoldable pub without_profiles : Unqualified
without_profiles = record {
  profiles = keys engine_recipes;
  capability_ids = flattened (map recipe_capability_ids (values engine_recipes));
  recipe_versions = [];
}

In-append_left : (x : String) (xs ys : List String) → In x xs → In x (xs ++ ys)
In-append_left x [] ys i = absurd i
In-append_left x (y ∷ xs) ys (inl e) = inl e
In-append_left x (y ∷ xs) ys (inr i) = inr (In-append_left x xs ys i)

In-append_right : (x : String) (xs ys : List String) → In x ys → In x (xs ++ ys)
In-append_right x [] ys i = i
In-append_right x (y ∷ xs) ys i = inr (In-append_right x xs ys i)

-- A profile's name and its capabilities are among the refused ones.
abbrev Covers : String → MachineProfile → Unqualified → Type 0
Covers name m u =
    In name u.profiles × ((c : String) → In c (profile_capability_ids m) → In c u.capability_ids)

Covers-new :
    (name : String) (m : MachineProfile) (v : String) (u : Unqualified)
    → Covers name m (add_profile name m v u)
Covers-new name m v u =
    (inl refl, λ c i. In-append_left c (profile_capability_ids m) u.capability_ids i)

Covers-add :
    (name other : String) (m n : MachineProfile) (v : String) (u : Unqualified)
    → Covers name m u
    → Covers name m (add_profile other n v u)
Covers-add name other m n v u (named, served) =
    (inr named, λ c i. In-append_right c (profile_capability_ids n) u.capability_ids (served c i))

get-entry :
    (name other : String) (m n : MachineProfile) (table : Dict MachineProfile)
    → get name ((other, n) ∷ table) ≡ some m
    → ((n ≡ m) × (other ≡ name)) ⊎ (get name table ≡ some m)
unfolding get
get-entry name other m n table found = ground (arith, eq_iff other name, found)

returned : {A : Type 0} {x y : A} → ok x ≡ ok y → x ≡ y
returned e = ground (arith, e)

usable-differs :
    {X : Type 0} (m n : MachineProfile) → is_usable n ≡ true → is_usable m ≡ false → n ≡ m → X
usable-differs m n good bad same = absurd (ground (arith, ap is_usable same, good, bad))

module _ (k : Package) where
  unqualified-Covers :
      (table : Dict MachineProfile) (u : Unqualified) (name : String) (m : MachineProfile)
      → unqualified k table ≡ ok u
      → get name table ≡ some m
      → is_usable m ≡ false
      → Covers name m u
  unfolding unqualified get
  unqualified-Covers [] u name m h found unusable = absurd (ground (arith, found))
  unqualified-Covers ((other, n) ∷ table) u name m h found unusable =
      elim (Bool-cases (is_usable n)) [
        | inl e ↦ elim (get-entry name other m n table found) [
          | inl (same, _) ↦ usable-differs m n e unusable same
          | inr later ↦ unqualified-Covers table u name m (rw (unqualified, e) at h) later unusable
        ]
        | inr e ↦
            let (v, _, h1) = >>=-eq-ok (profile_version k other n) _ (rw (unqualified, e) at h) in
            let (w, others, h2) = >>=-eq-ok (unqualified k table) _ h1 in
            subst (Covers name m) (returned h2) (elim (get-entry name other m n table found) [
              | inl (same, named) ↦
                  subst (λ x. Covers name x (add_profile other n v w)) same
                    (subst (λ x. Covers x n (add_profile other n v w)) named
                      (Covers-new other n v w))
              | inr later ↦
                  Covers-add name other m n v w
                    (unqualified-Covers table w name m others later unusable)
            ])
      ]

refused_capability-none :
    (q : Profiles) (ids : List String) (c : String)
    → refused_capability q ids ≡ none
    → In c ids
    → contains q.refused_capability_ids c ≡ false
refused_capability-none q [] c h i = absurd i
refused_capability-none q (d ∷ ids) c h (inl e) =
    elim (Bool-cases (contains q.refused_capability_ids d)) [
      | inl refused ↦ absurd (ground (arith, (rw refused at h)))
      | inr fine ↦ subst (λ x. contains q.refused_capability_ids x ≡ false) (sym e) fine
    ]
refused_capability-none q (d ∷ ids) c h (inr i) =
    elim (Bool-cases (contains q.refused_capability_ids d)) [
      | inl refused ↦ absurd (ground (arith, (rw refused at h)))
      | inr fine ↦ refused_capability-none q ids c (rw fine at h) i
    ]

refused_version-none :
    (q : Profiles) (versions : Dict String) (key v : String)
    → refused_version q versions ≡ none
    → In (key, v) versions
    → names_refused q key v ≡ false
refused_version-none q [] key v h i = absurd i
refused_version-none q ((j, w) ∷ versions) key v h i = elim (Bool-cases (names_refused q j w)) [
  | inl refused ↦ absurd (ground (arith, (rw refused at h)))
  | inr fine ↦ elim i [
    | inl e ↦ subst (λ (x : String × String). names_refused q x.0 x.1 ≡ false) (sym e) fine
    | inr later ↦ refused_version-none q versions key v (rw fine at h) later
  ]
]

-- A set of capabilities or a dict of runtime versions names the profile.
pub data Touches (name : String) (m : MachineProfile) (ids : List String) (versions : Dict String)
    : Type 0 where
  by_capability :
      (c : String) → In c ids → In c (profile_capability_ids m) → Touches name m ids versions
  by_profile : In ("magic_profile", name) versions → Touches name m ids versions
  by_recipe :
      (v : String)
      → In (recipe_key (some name) recipe_name, v) versions
      → Touches name m ids versions

unqualified_reason-none :
    (q : Profiles) (ids : List String) (versions : Dict String)
    → unqualified_reason q ids versions ≡ none
    → (refused_capability q ids ≡ none) × (refused_version q versions ≡ none)
unfolding unqualified_reason
unqualified_reason-none q ids versions h = elim (Option-cases (refused_capability q ids)) [
  | inl e ↦ (e, no-version (refused_version q versions) (rw (unqualified_reason, e) at h))
  | inr (c, e) ↦ absurd (ground (arith, (rw (unqualified_reason, e) at h)))
]
  where
    no-version : (o : Option String) → version_reason o ≡ none → o ≡ none
    no-version none e = refl
    no-version (some s) e = absurd (ground (arith, e))

refused-contained :
    {X : Type 0} (xs : List String) (x : String) → contains xs x ≡ false → In x xs → X
refused-contained xs x out i = absurd (ground (arith, In→contains xs x i, out))

-- A name under `magic_profile`, or behind the `@` of `magic_recipe@`, is looked up among the refused.
named-refused :
    {X : Type 0} (q : Profiles) (name : String)
    → names_refused q "magic_profile" name ≡ false
    → In name q.refused_profiles
    → X
unfolding names_refused partition
named-refused q name fine i =
    refused-contained q.refused_profiles name
      (ground (arith, fine, In→contains q.refused_profiles name i)) i

recipe-refused :
    {X : Type 0} (q : Profiles) (name v : String)
    → names_refused q (recipe_key (some name) recipe_name) v ≡ false
    → In name q.refused_profiles
    → X
unfolding names_refused partition recipe_key
recipe-refused q name v fine i =
    refused-contained q.refused_profiles name
      (ground (arith, fine, In→contains q.refused_profiles name i)) i

module _ (k : Package) (table : Dict MachineProfile) (u : Unqualified) (q : Profiles) where
  -- Where the service refuses what `unqualified` describes, the capabilities and runtime versions
  -- that pass its test touch usable profiles only: a profile of the table whose capability is among
  -- them, or whose name stands in the versions under `magic_profile` or behind `magic_recipe@`, is
  -- marked qualified and has no unset pin.
  pub unqualified_reason-Usable :
      (ids : List String) (versions : Dict String) (name : String) (m : MachineProfile)
      → unqualified k table ≡ ok u
      → unqualified_reason (refusing u q) ids versions ≡ none
      → get name table ≡ some m
      → Touches name m ids versions
      → is_usable m ≡ true
  unfolding refusing
  unqualified_reason-Usable ids versions name m h passed found touch =
      elim (Bool-cases (is_usable m)) [
        | inl usable ↦ usable
        | inr e ↦
            let (named, served) = unqualified-Covers k table u name m h found e in
            let (no_id, no_version) = unqualified_reason-none (refusing u q) ids versions passed in
            elim touch [
              | by_capability c i j ↦
                  refused-contained u.capability_ids c
                    (refused_capability-none (refusing u q) ids c no_id i) (served c j)
              | by_profile i ↦
                  named-refused (refusing u q) name
                    (refused_version-none (refusing u q) versions "magic_profile" name no_version i)
                    named
              | by_recipe v i ↦
                  recipe-refused (refusing u q) name v
                    (refused_version-none (refusing u q) versions _ v no_version i) named
            ]
      ]
