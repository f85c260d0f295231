-- ===== src/Validation/Depth.antt =====
-- What `_validate_json_tree` accepts: trees of bounded depth with finite numbers.
use outbound_gpu_worker_pool.Base.{ℕ, suc, ◌+◌, ◌≤◌, max, ◌≡◌, refl, sym, ◌∙◌, ◌↔◌, arith, ltb}
use outbound_gpu_worker_pool.Contracts.{
  ◌>>◌, raise_if, Error, Result, ok, err, max_job_payload_depth, finite, infinity, nan, Value, null,
  bool, int, float, str, list, dict, Items, nil, cons, Fields, end, field,
}
use outbound_gpu_worker_pool.Validation.{too_deep, validate_json_tree}
use outbound_gpu_worker_pool.Validation.Tree.{
  check, check_items, check_fields, validate_json_tree-eq-check,
}

-- How far the containers of a value nest.
abbrev mutual
  pub height : Value → ℕ
  height (list xs) = height_items xs
  height (dict fs) = height_fields fs
  height _ = 0

  pub height_items : Items → ℕ
  height_items nil = 0
  height_items (cons x xs) = max (suc (height x)) (height_items xs)

  pub height_fields : Fields → ℕ
  height_fields end = 0
  height_fields (field k v fs) = max (suc (height v)) (height_fields fs)

-- No infinity and no nan at any depth.
abbrev mutual
  pub AllFinite : Value → Type 0
  AllFinite (float (infinity s)) = ⊥
  AllFinite (float nan) = ⊥
  AllFinite (list xs) = AllFiniteItems xs
  AllFinite (dict fs) = AllFiniteFields fs
  AllFinite _ = Unit {0}

  pub AllFiniteItems : Items → Type 0
  AllFiniteItems nil = Unit {0}
  AllFiniteItems (cons x xs) = AllFinite x × AllFiniteItems xs

  pub AllFiniteFields : Fields → Type 0
  AllFiniteFields end = Unit {0}
  AllFiniteFields (field k v fs) = AllFinite v × AllFiniteFields fs

>>-ok : (r s : Result (Unit {0})) → (r >> s) ≡ ok tt → (r ≡ ok tt) × (s ≡ ok tt)
>>-ok (ok a) s h = (refl, h)
>>-ok (err e) s h = cc

>>-err : (r : Result (Unit {0})) (e : Error) → ◌≡◌ {A = Result (Unit {0})} (r >> err e) (ok tt) → ⊥
>>-err (ok a) e h = cc
>>-err (err x) e h = cc

deep-ok : (d : ℕ) → raise_if (ltb max_job_payload_depth d) too_deep ≡ ok tt → d ≤ 8
deep-ok d h = ground arith

ok-deep : (d : ℕ) → d ≤ 8 → raise_if (ltb max_job_payload_depth d) too_deep ≡ ok tt
ok-deep d h = ground arith

mutual
  unfolding check

  sound : (d : ℕ) (v : Value) → check d v ≡ ok tt → (d + height v ≤ 8) × AllFinite v
  sound d null h = (omega (arith, deep-ok d h), tt)
  sound d (bool b) h = (omega (arith, deep-ok d h), tt)
  sound d (int n) h = (omega (arith, deep-ok d h), tt)
  sound d (str s) h = (omega (arith, deep-ok d h), tt)
  sound d (float (finite n)) h = (omega (arith, deep-ok d h), tt)
  sound d (float (infinity s)) h = absurd (>>-err _ _ h)
  sound d (float nan) h = absurd (>>-err _ _ h)
  sound d (list xs) h =
      let p = >>-ok (raise_if (ltb max_job_payload_depth d) too_deep) (check_items (d + 1) xs) h in
      let q = sound_items (d + 1) xs (omega (arith, deep-ok d p.0)) p.1 in (omega (arith, q.0), q.1)
  sound d (dict fs) h =
      let p = >>-ok (raise_if (ltb max_job_payload_depth d) too_deep) (check_fields (d + 1) fs) h in
      let q = sound_fields (d + 1) fs (omega (arith, deep-ok d p.0)) p.1 in
      (omega (arith, q.0), q.1)

  sound_items :
      (d : ℕ) (xs : Items)
      → d ≤ 9
      → check_items d xs ≡ ok tt
      → (d + height_items xs ≤ 9) × AllFiniteItems xs
  sound_items d nil b h = (omega arith, tt)
  sound_items d (cons x xs) b h =
      let p = >>-ok (check_items d xs) (check d x) h in
      let q = sound_items d xs b p.0 in
      let r = sound d x p.1 in (omega (arith, q.0, r.0), (r.1, q.1))

  sound_fields :
      (d : ℕ) (fs : Fields)
      → d ≤ 9
      → check_fields d fs ≡ ok tt
      → (d + height_fields fs ≤ 9) × AllFiniteFields fs
  sound_fields d end b h = (omega arith, tt)
  sound_fields d (field k v fs) b h =
      let p = >>-ok (check_fields d fs) (check d v) h in
      let q = sound_fields d fs b p.0 in
      let r = sound d v p.1 in (omega (arith, q.0, r.0), (r.1, q.1))

>>-intro : (r s : Result (Unit {0})) → r ≡ ok tt → s ≡ ok tt → (r >> s) ≡ ok tt
>>-intro (ok a) s h k = k
>>-intro (err e) s h k = cc

mutual
  unfolding check

  complete : (d : ℕ) (v : Value) → d + height v ≤ 8 → AllFinite v → check d v ≡ ok tt
  complete d null h f = ok-deep d (omega arith)
  complete d (bool b) h f = ok-deep d (omega arith)
  complete d (int n) h f = ok-deep d (omega arith)
  complete d (str s) h f = ok-deep d (omega arith)
  complete d (float (finite n)) h f = ok-deep d (omega arith)
  complete d (float (infinity s)) h f = absurd f
  complete d (float nan) h f = absurd f
  complete d (list xs) h f =
      >>-intro _ _ (ok-deep d (omega arith)) (complete_items (d + 1) xs (omega arith) f)
  complete d (dict fs) h f =
      >>-intro _ _ (ok-deep d (omega arith)) (complete_fields (d + 1) fs (omega arith) f)

  complete_items :
      (d : ℕ) (xs : Items) → d + height_items xs ≤ 9 → AllFiniteItems xs → check_items d xs ≡ ok tt
  complete_items d nil h f = refl
  complete_items d (cons x xs) h f =
      >>-intro _ _ (complete_items d xs (omega arith) f.1) (complete d x (omega arith) f.0)

  complete_fields :
      (d : ℕ) (fs : Fields)
      → d + height_fields fs ≤ 9
      → AllFiniteFields fs
      → check_fields d fs ≡ ok tt
  complete_fields d end h f = refl
  complete_fields d (field k v fs) h f =
      >>-intro _ _ (complete_fields d fs (omega arith) f.1) (complete d v (omega arith) f.0)

-- The stack walk accepts a payload tree exactly when its containers nest at most seven deep below
-- the root and no number in it is an infinity or a nan.
pub validate_json_tree_iff :
    (v : Value) → (validate_json_tree v ≡ ok tt) ↔ ((1 + height v ≤ 8) × AllFinite v)
validate_json_tree_iff v = (
  λ h. sound 1 v (sym (validate_json_tree-eq-check v) ∙ h),
  λ p. validate_json_tree-eq-check v ∙ complete 1 v p.0 p.1,
)
