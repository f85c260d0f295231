-- ===== src/Enrollment/Subjects.antt =====
-- What validated enrollments satisfy.
use outbound_gpu_worker_pool.Base.{
  String, ◌≡◌, refl, sym, ap, ◌∙◌, Bool, true, false, not, List, [], ◌∷◌, In, contains, In→contains,
  codes, ℤ_eq, ℕ_eq, String_eq, Option_eq, List_eq, Dict,
}
use outbound_gpu_worker_pool.Contracts.{>>=-eq-ok, raise_if-eq-ok, Result, ok, err}
use outbound_gpu_worker_pool.Regex.Language.{Matches}
use outbound_gpu_worker_pool.Regex.Decides.{fullmatch-iff-Matches}
use outbound_gpu_worker_pool.Enrollment.{
  worker_id_pattern, is_worker_id, check_enrollments, validate_enrollments, WorkerEnrollment,
}

-- No two workers share a subject, none is in the list, and every id is of the pattern.
abbrev pub Separate : List String → Dict WorkerEnrollment → Type 0
Separate subjects [] = Unit {0}
Separate subjects ((worker_id, e) ∷ d) =
    Matches worker_id_pattern (codes worker_id)
    × (¬ In e.identity_subject subjects)
    × Separate (e.identity_subject ∷ subjects) d

contains-no : (xs : List String) (a : String) → contains xs a ≡ false → ¬ In a xs
contains-no xs a h i = true≢false (sym (In→contains xs a i) ∙ h)
  where
    true≢false : true ≡ false → ⊥
    true≢false e = cc

check_enrollments-Separate :
    (subjects : List String) (d : Dict WorkerEnrollment)
    → check_enrollments subjects d ≡ ok tt
    → Separate subjects d
unfolding check_enrollments is_worker_id
check_enrollments-Separate subjects [] h = tt
check_enrollments-Separate subjects ((worker_id, e) ∷ d) h =
    let a = raise_if-eq-ok (not (is_worker_id worker_id)) _ _ h in
    let b = raise_if-eq-ok (contains subjects e.identity_subject) _ _ a.1 in
    (
      (fullmatch-iff-Matches worker_id_pattern (codes worker_id)).0 (not-false _ a.0),
      contains-no subjects e.identity_subject b.0,
      check_enrollments-Separate (e.identity_subject ∷ subjects) d b.1,
    )
  where
    not-false : (t : Bool) → not t ≡ false → t ≡ true
    not-false true q = refl
    not-false false q = cc

-- Enrollments that validation lets through come back as they are, every worker id in them is of
-- the pattern, and no two workers share an identity subject.
pub validate_enrollments-Separate :
    (d d' : Dict WorkerEnrollment) → validate_enrollments d ≡ ok d' → (d' ≡ d) × Separate [] d
unfolding validate_enrollments
validate_enrollments-Separate d d' h =
    let x = >>=-eq-ok (check_enrollments [] d) (λ _. ok d) h in
    (sym (ok_inj d d' x.2), check_enrollments-Separate [] d x.1)
  where
    ok_inj : (a b : Dict WorkerEnrollment) → ok a ≡ ok b → a ≡ b
    ok_inj a b e = ap (λ (r : Result (Dict WorkerEnrollment)). elim r [ ok y ↦ y | err z ↦ a ]) e
