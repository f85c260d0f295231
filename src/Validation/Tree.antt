-- ===== src/Validation/Tree.antt =====
-- The stack walk of `_validate_json_tree` against a recursive description of what it checks.
use outbound_gpu_worker_pool.Base.{
  ℕ, suc, ◌+◌, ◌≡◌, refl, sym, ap, ◌∙◌, inl, inr, Option, some, List, [], ◌∷◌, arith, ltb,
  Bool-cases,
}
use outbound_gpu_worker_pool.Contracts.{
  ◌>>◌, raise_if, Error, value_error, Result, ok, err, max_job_payload_depth, finite, infinity, nan,
  Value, null, bool, int, float, str, list, dict, Items, nil, cons, Fields, end, field,
}
use outbound_gpu_worker_pool.Validation.{
  push_items, push_fields, visit, too_deep, walk_tree, size, size_items, size_fields, finished,
  validate_json_tree,
}

-- The first error in the order of the walk: a value before its children, the last child first.
unfoldable mutual
  pub check : ℕ → Value → Result (Unit {0})
  check d (list xs) = raise_if (ltb max_job_payload_depth d) too_deep >> check_items (d + 1) xs
  check d (dict fs) = raise_if (ltb max_job_payload_depth d) too_deep >> check_fields (d + 1) fs
  check d (float (finite n)) = raise_if (ltb max_job_payload_depth d) too_deep
  check d (float _) =
      raise_if (ltb max_job_payload_depth d) too_deep
      >> err (value_error "job payload numbers must be finite")
  check d _ = raise_if (ltb max_job_payload_depth d) too_deep

  pub check_items : ℕ → Items → Result (Unit {0})
  check_items d nil = ok tt
  check_items d (cons x xs) = check_items d xs >> check d x

  pub check_fields : ℕ → Fields → Result (Unit {0})
  check_fields d end = ok tt
  check_fields d (field k v fs) = check_fields d fs >> check d v

abbrev andthen : Result (Unit {0}) → Option (Result (Unit {0})) → Option (Result (Unit {0}))
andthen (ok _) k = k
andthen (err e) k = some (err e)

andthen-bind :
    (r s : Result (Unit {0})) (k : Option (Result (Unit {0})))
    → andthen (r >> s) k ≡ andthen r (andthen s k)
andthen-bind (ok a) s k = refl
andthen-bind (err e) s k = refl

one-add : (n : ℕ) → 1 + n ≡ suc n
one-add n = omega arith

suc-add : (m n : ℕ) → suc m + n ≡ suc (m + n)
suc-add m n = omega arith

-- One round on a value that is not an infinite float.
walk-visit :
    (v : Value) (d f : ℕ) (stack next : List (Value × ℕ))
    → visit v d stack ≡ ok next
    → walk_tree (suc f) ((v, d) ∷ stack)
      ≡ andthen (raise_if (ltb max_job_payload_depth d) too_deep) (walk_tree f next)
unfolding walk_tree
walk-visit v d f stack next h = elim (Bool-cases (ltb max_job_payload_depth d)) [
  | inl e ↦ rw (e, walk_tree)
  | inr e ↦ rw (e, h, walk_tree)
]

walk-error :
    (v : Value) (d f : ℕ) (stack : List (Value × ℕ)) (x : Error)
    → visit v d stack ≡ err x
    → walk_tree (suc f) ((v, d) ∷ stack)
      ≡ andthen (raise_if (ltb max_job_payload_depth d) too_deep >> err x) (walk_tree f stack)
unfolding walk_tree
walk-error v d f stack x h = elim (Bool-cases (ltb max_job_payload_depth d)) [
  | inl e ↦ rw (e, walk_tree)
  | inr e ↦ rw (e, h, walk_tree)
]

mutual
  unfolding check

  walk-check :
      (v : Value) (d f : ℕ) (stack : List (Value × ℕ))
      → walk_tree (size v + f) ((v, d) ∷ stack) ≡ andthen (check d v) (walk_tree f stack)
  walk-check null d f stack = rw (one-add f) (walk-visit null d f stack stack refl)
  walk-check (bool b) d f stack = rw (one-add f) (walk-visit (bool b) d f stack stack refl)
  walk-check (int n) d f stack = rw (one-add f) (walk-visit (int n) d f stack stack refl)
  walk-check (float (finite n)) d f stack =
      rw (one-add f) (walk-visit (float (finite n)) d f stack stack refl)
  walk-check (float (infinity s)) d f stack =
      rw (one-add f) (walk-error (float (infinity s)) d f stack _ refl)
  walk-check (float nan) d f stack = rw (one-add f) (walk-error (float nan) d f stack _ refl)
  walk-check (str s) d f stack = rw (one-add f) (walk-visit (str s) d f stack stack refl)
  walk-check (list xs) d f stack = rw (suc-add (size_items xs) f) (
      walk-visit (list xs) d (size_items xs + f) stack (push_items xs (d + 1) stack) refl
      ∙ ap (andthen (raise_if (ltb max_job_payload_depth d) too_deep))
          (walk-check_items xs (d + 1) f stack)
      ∙ sym (
          andthen-bind (raise_if (ltb max_job_payload_depth d) too_deep) (check_items (d + 1) xs)
            (walk_tree f stack)))
  walk-check (dict fs) d f stack = rw (suc-add (size_fields fs) f) (
      walk-visit (dict fs) d (size_fields fs + f) stack (push_fields fs (d + 1) stack) refl
      ∙ ap (andthen (raise_if (ltb max_job_payload_depth d) too_deep))
          (walk-check_fields fs (d + 1) f stack)
      ∙ sym (
          andthen-bind (raise_if (ltb max_job_payload_depth d) too_deep) (check_fields (d + 1) fs)
            (walk_tree f stack)))

  walk-check_items :
      (xs : Items) (d f : ℕ) (stack : List (Value × ℕ))
      → walk_tree (size_items xs + f) (push_items xs d stack)
        ≡ andthen (check_items d xs) (walk_tree f stack)
  walk-check_items nil d f stack = ap (λ (n : ℕ). walk_tree n stack) (omega arith)
  walk-check_items (cons x xs) d f stack =
      ap (λ (n : ℕ). walk_tree n (push_items xs d ((x, d) ∷ stack))) (omega arith)
      ∙ walk-check_items xs d (size x + f) ((x, d) ∷ stack)
      ∙ ap (andthen (check_items d xs)) (walk-check x d f stack)
      ∙ sym (andthen-bind (check_items d xs) (check d x) (walk_tree f stack))

  walk-check_fields :
      (fs : Fields) (d f : ℕ) (stack : List (Value × ℕ))
      → walk_tree (size_fields fs + f) (push_fields fs d stack)
        ≡ andthen (check_fields d fs) (walk_tree f stack)
  walk-check_fields end d f stack = ap (λ (n : ℕ). walk_tree n stack) (omega arith)
  walk-check_fields (field k v fs) d f stack =
      ap (λ (n : ℕ). walk_tree n (push_fields fs d ((v, d) ∷ stack))) (omega arith)
      ∙ walk-check_fields fs d (size v + f) ((v, d) ∷ stack)
      ∙ ap (andthen (check_fields d fs)) (walk-check v d f stack)
      ∙ sym (andthen-bind (check_fields d fs) (check d v) (walk_tree f stack))

done-andthen : (r : Result (Unit {0})) → andthen r (some (ok tt)) ≡ some r
done-andthen (ok a) = refl
done-andthen (err e) = refl

-- The stack walk ends on every tree, on fuel that its size gives, with the result of a recursive
-- check that goes through each list and each dict from its last entry to its first.
pub validate_json_tree-eq-check : (v : Value) → validate_json_tree v ≡ check 1 v
unfolding validate_json_tree walk_tree
validate_json_tree-eq-check v = ap finished (
    ap (λ (n : ℕ). walk_tree n ((v, 1) ∷ [])) (omega arith)
    ∙ walk-check v 1 0 []
    ∙ done-andthen (check 1 v))
