-- ===== src/JobStore/Keyed.antt =====
-- Each job stands once in the store, under its own id. The laws of `records` that the proofs use.
use outbound_gpu_worker_pool.Base.{
  String, ◌≡◌, refl, sym, ap, ◌∙◌, ◌≢◌, inl, inr, none, some, [], ◌∷◌, arith, eq_iff, Bool-cases,
  In, ℤ_eq, ◌==◌, ℕ_eq, String_eq, Option_eq, List_eq, Dict, get, put, values,
}
use outbound_gpu_worker_pool.Contracts.{JobRecord}

abbrev pub Absent : String → Dict JobRecord → Type 0
Absent k [] = Unit {0}
Absent k ((j, r) ∷ d) = (k ≢ j) × Absent k d

abbrev pub Keyed : Dict JobRecord → Type 0
Keyed [] = Unit {0}
Keyed ((k, r) ∷ d) = (r.job_id ≡ k) × Absent k d × Keyed d

pub get-Absent : (k : String) (d : Dict JobRecord) → Absent k d → get k d ≡ none
unfolding get
get-Absent k [] h = refl
get-Absent k ((j, r) ∷ d) h = ground (arith, eq_iff j k, get-Absent k d h.1)

Absent-put :
    (k j : String) (r : JobRecord) (d : Dict JobRecord) → k ≢ j → Absent k d → Absent k (put j r d)
unfolding put
Absent-put k j r [] n h = (n, tt)
Absent-put k j r ((i, s) ∷ d) n h = elim (Bool-cases (i == j)) [
  | inl e ↦ rw (e, put) h
  | inr e ↦ rw (e, put) (h.0, Absent-put k j r d n h.1)
]

-- A write of a job under its own id keeps the store keyed.
pub put-Keyed : (r : JobRecord) (d : Dict JobRecord) → Keyed d → Keyed (put r.job_id r d)
unfolding put
put-Keyed r [] h = (refl, tt, tt)
put-Keyed r ((j, s) ∷ d) h = elim (Bool-cases (j == r.job_id)) [
  | inl e ↦ rw (e, put) (sym ((eq_iff j r.job_id).0 e), h.1, h.2)
  | inr e ↦
      rw (e, put)
        (
          h.0,
          Absent-put j r.job_id r d (λ q. cc (e, (eq_iff j r.job_id).1 q)) h.1,
          put-Keyed r d h.2,
        )
]

-- A value of a keyed store is what its own id finds.
not-Absent-In :
    (r : JobRecord) (k : String) (d : Dict JobRecord)
    → Keyed d
    → Absent k d
    → In r (values d)
    → k ≢ r.job_id
not-Absent-In r k [] h a i = absurd i
not-Absent-In r k ((j, s) ∷ d) h a (inl e) = λ q. a.0 (q ∙ ap (λ (x : JobRecord). x.job_id) e ∙ h.0)
not-Absent-In r k ((j, s) ∷ d) h a (inr i) = not-Absent-In r k d h.2 a.1 i

pub In-get :
    (r : JobRecord) (d : Dict JobRecord) → Keyed d → In r (values d) → get r.job_id d ≡ some r
unfolding get
In-get r [] h i = absurd i
In-get r ((j, s) ∷ d) h (inl e) =
    let q : j ≡ r.job_id = sym (ap (λ (x : JobRecord). x.job_id) e ∙ h.0) in
    rw ((eq_iff j r.job_id).1 q, get) (ap (λ (x : JobRecord). some x) (sym e))
In-get r ((j, s) ∷ d) h (inr i) = elim (Bool-cases (j == r.job_id)) [
  | inl e ↦ absurd (not-Absent-In r j d h.2 h.1 i ((eq_iff j r.job_id).0 e))
  | inr e ↦ rw (e, get) (In-get r d h.2 i)
]

-- And what an id finds has that id.
pub get-job_id :
    (k : String) (r : JobRecord) (d : Dict JobRecord) → Keyed d → get k d ≡ some r → r.job_id ≡ k
unfolding get
get-job_id k r [] h e = cc
get-job_id k r ((j, s) ∷ d) h e = ground (arith, eq_iff j k, h.0, get-job_id k r d h.2)
