-- ===== src/MachineProfiles/Pins.antt =====
-- What a job pins of a further profile of a runtime, by `namespaced_versions` of machine_profiles.py and
-- `_pinned_recipe` of service.py.
use Prim.Native.Char.{code}
use outbound_gpu_worker_pool.Service.Qualification.{first_recipe, pinned_recipe}
use outbound_gpu_worker_pool.Registry.{insert_text, sort_texts}
use outbound_gpu_worker_pool.Base.{
  ℕ, String, ◌≡◌, refl, sym, ap, ◌∙◌, subst, ◌≢◌, ◌⊎◌, inl, inr, true, false, Option, none, some,
  List, [], ◌∷◌, ◌++◌, arith, eq_iff, Bool-cases, Option-cases, is_some, filter, All, In, codes,
  concat, strip_prefix, Dict, get, keys,
}
use outbound_gpu_worker_pool.MachineProfiles.Versions.{
  recipe_name, config_name, recipe_key, version_at, is_feature, under_profile, namespaced_versions,
}
use outbound_gpu_worker_pool.Json.{codes_lt}
use outbound_gpu_worker_pool.Auth.Accounts.{strip_prefix-codes}
use outbound_gpu_worker_pool.Contracts.{>>=-eq-ok, ok}

-- The key of a recipe that is not the runtime's first.
abbrev IsPin : String → Type 0
IsPin k = is_some (strip_prefix "magic_recipe@" k) ≡ true

-- A key that pins no recipe.
abbrev PinsNothing : String → Type 0
PinsNothing k = (is_some (strip_prefix "magic_recipe@" k) ≡ false) × (k ≢ recipe_name)

codes-concat : (s t : String) → codes (concat s t) ≡ codes s ++ codes t
codes-concat String.[] t = refl
codes-concat (String.◌∷◌ c s) t = ap (λ xs. code c ∷ xs) (codes-concat s t)

-- The code point behind `magic_`, which tells the keys apart.
abbrev kind_code : List ℕ → ℕ
kind_code (m ∷ a ∷ g ∷ i ∷ c ∷ u ∷ x ∷ xs) = x
kind_code _ = 0

PinsNothing-kind_code : (k : String) → kind_code (codes k) ≢ b'r' → PinsNothing k
PinsNothing-kind_code k other = (no_prefix, λ same. other (ap (λ s. kind_code (codes s)) same))
  where
    no_prefix : is_some (strip_prefix "magic_recipe@" k) ≡ false
    no_prefix = elim (Option-cases (strip_prefix "magic_recipe@" k)) [
      | inl e ↦ rw e refl
      | inr (r, e) ↦ absurd (other (ap kind_code (strip_prefix-codes "magic_recipe@" k r e)))
    ]

-- In a list of texts in which one key pins a recipe, and which the sorting only permutes.
All-insert_text :
    (P : String → Type 0) (s : String) (ts : List String)
    → P s
    → All P ts
    → All P (insert_text s ts)
unfolding insert_text
All-insert_text P s [] p ps = (p, tt)
All-insert_text P s (t ∷ ts) p ps = elim (Bool-cases (codes_lt (codes t) (codes s))) [
  | inl e ↦ rw (insert_text, e) (ps.0, All-insert_text P s ts p ps.1)
  | inr e ↦ rw (insert_text, e) (p, ps)
]

All-sort_texts : (P : String → Type 0) (ts : List String) → All P ts → All P (sort_texts ts)
unfolding sort_texts
All-sort_texts P [] ps = tt
All-sort_texts P (t ∷ ts) ps = All-insert_text P t (sort_texts ts) ps.0 (All-sort_texts P ts ps.1)

In-insert_text : (s : String) (ts : List String) → In s (insert_text s ts)
unfolding insert_text
In-insert_text s [] = inl refl
In-insert_text s (t ∷ ts) = elim (Bool-cases (codes_lt (codes t) (codes s))) [
  | inl e ↦ rw (insert_text, e) (inr (In-insert_text s ts))
  | inr e ↦ rw (insert_text, e) (inl refl)
]

first_recipe-only :
    (k : String) (ks : List String) (d : Dict String)
    → IsPin k
    → In k ks
    → All (λ j. (j ≡ k) ⊎ PinsNothing j) ks
    → first_recipe ks d ≡ get k d
unfolding first_recipe
first_recipe-only k [] d pin i others = absurd i
first_recipe-only k (j ∷ ks) d pin i (inl e, others) = rw (first_recipe, e, pin) refl
first_recipe-only k (j ∷ ks) d pin (inl e) (inr plain, others) =
    absurd (ground (arith, (rw e at pin), plain.0))
first_recipe-only k (j ∷ ks) d pin (inr i) (inr plain, others) =
    rw (first_recipe, plain.0) (first_recipe-only k ks d pin i others)

get-none : (j : String) (d : Dict String) → All (λ k. k ≢ j) (keys d) → get j d ≡ none
unfolding get
get-none j [] h = refl
get-none j ((k, v) ∷ d) h = ground (arith, eq_iff k j, get-none j d h.1, h.0)

PinsNothing-feature :
    (profile : String) (entry : String × String)
    → is_feature entry ≡ true
    → PinsNothing (recipe_key (some profile) entry.0)
unfolding recipe_key
PinsNothing-feature profile (k, v) h = elim (Option-cases (strip_prefix "magic_feature_" k)) [
  | inl e ↦ absurd (ground (arith, (rw e at h)))
  | inr (r, e) ↦
      PinsNothing-kind_code (concat k (concat "@" profile))
        (λ same. absurd (omega (arith, (at_feature r e same))))
]
  where
    at_feature :
        (r : String)
        → strip_prefix "magic_feature_" k ≡ some r
        → kind_code (codes (concat k (concat "@" profile))) ≡ b'r'
        → ◌≡◌ {A = ℕ} b'f' b'r'
    at_feature r e same =
        subst (λ xs. kind_code (xs ++ codes (concat "@" profile)) ≡ b'r')
          (strip_prefix-codes "magic_feature_" k r e)
          (subst (λ xs. kind_code xs ≡ b'r') (codes-concat k (concat "@" profile)) same)

features-PinsNothing :
    (profile : String) (versions : Dict String)
    → All PinsNothing (keys (under_profile profile (filter is_feature versions)))
features-PinsNothing profile [] = tt
features-PinsNothing profile ((k, v) ∷ versions) = elim (Bool-cases (is_feature (k, v))) [
  | inl e ↦ rw e (PinsNothing-feature profile (k, v) e, features-PinsNothing profile versions)
  | inr e ↦ rw e (features-PinsNothing profile versions)
]

All-map :
    {P Q : String → Type 0} (ks : List String) → ((k : String) → P k → Q k) → All P ks → All Q ks
All-map [] f ps = tt
All-map (k ∷ ks) f ps = (f k ps.0, All-map ks f ps.1)

IsPin-other : (k : String) → IsPin k → k ≢ recipe_name
unfolding strip_prefix
IsPin-other k pin same = absurd (ground (arith, subst IsPin same pin))

-- What a dict pins: a recipe, which it holds under the one key, and none under the plain key.
abbrev pub Pins : String → Option String → Dict String → Type 0
Pins key recipe d =
    (pinned_recipe d ≡ recipe) × (get key d ≡ recipe) × (get "magic_recipe" d ≡ none)

-- A dict whose first key pins a recipe, and in which no other key does.
pinned_recipe-first :
    (k v : String) (d : Dict String)
    → IsPin k
    → All PinsNothing (keys d)
    → Pins k (some v) ((k, v) ∷ d)
unfolding pinned_recipe get sort_texts
pinned_recipe-first k v d pin plain = (
  rw (pinned_recipe, no_plain)
      (first_recipe-only k (sort_texts (k ∷ keys d)) ((k, v) ∷ d) pin
          (In-insert_text k (sort_texts (keys d)))
          (All-sort_texts _ (k ∷ keys d) (inl refl, All-map (keys d) (λ j p. inr p) plain))
        ∙ stands),
  stands,
  no_plain,
)
  where
    no_plain : get recipe_name ((k, v) ∷ d) ≡ none
    no_plain =
        get-none recipe_name ((k, v) ∷ d) (IsPin-other k pin, All-map (keys d) (λ j p. p.1) plain)

    stands : get k ((k, v) ∷ d) ≡ some v
    stands = ground (arith, eq_iff k k)

version_at-eq-ok : (key v : String) (d : Dict String) → version_at key d ≡ ok v → get key d ≡ some v
version_at-eq-ok key v d h = elim (Option-cases (get key d)) [
  | inl e ↦ absurd (ground (arith, (rw (version_at, e) at h)))
  | inr (w, e) ↦ ground (arith, (rw (version_at, e) at h), e)
]

-- Where `namespaced_versions` returns, what a further profile registers beside a runtime's first one
-- pins the recipe that the profile has on its own: it stands under `magic_recipe@` with the
-- profile's name, and nothing stands under the plain key, which is the first profile's.
pub pinned_recipe-namespaced_versions :
    (profile : String) (versions own : Dict String)
    → namespaced_versions profile versions ≡ ok own
    → Pins (concat "magic_recipe@" profile) (get "magic_recipe" versions) own
unfolding namespaced_versions recipe_key strip_prefix
pinned_recipe-namespaced_versions profile versions own h =
    let (r, recipe, h1) = >>=-eq-ok (version_at recipe_name versions) _ h in
    let (c, config, h2) = >>=-eq-ok (version_at config_name versions) _ h1 in
    let (n, name, h3) = >>=-eq-ok (version_at "magic_profile" versions) _ h2 in
    let all =
      under_profile profile
        ((recipe_name, r) ∷ (config_name, c) ∷ ("magic_profile", n) ∷ filter is_feature versions) in
    subst (λ d. Pins (concat "magic_recipe@" profile) (get "magic_recipe" versions) d) (returned h3)
      (subst (λ o. Pins (concat "magic_recipe@" profile) o all)
        (sym (version_at-eq-ok recipe_name r versions recipe))
        (pinned_recipe-first (recipe_key (some profile) recipe_name) r _ refl (
          PinsNothing-kind_code _ (λ e. c≢r e),
          (PinsNothing-kind_code _ (λ e. p≢r e), features-PinsNothing profile versions),
        )))
  where
    returned : {x y : Dict String} → ok x ≡ ok y → x ≡ y
    returned e = ground (arith, e)

    c≢r : ◌≢◌ {A = ℕ} b'c' b'r'
    c≢r e = absurd (omega (arith, e))

    p≢r : ◌≢◌ {A = ℕ} b'p' b'r'
    p≢r e = absurd (omega (arith, e))
