-- ===== src/Auth/Accounts.antt =====
-- Which service accounts name a worker.
use Prim.Native.Char.{code}
use outbound_gpu_worker_pool.Base.{
  ℕ, String, ◌≡◌, sym, ap, ◌∙◌, subst, inl, inr, true, Option, none, some, List, ◌∷◌, ◌++◌, nat_eq,
  nat_eq_iff, Bool-cases, Option-cases, codes, strip_prefix, partition,
}
use outbound_gpu_worker_pool.Contracts.{worker_auth_error, Result, ok, err}
use outbound_gpu_worker_pool.Regex.{fullmatch}
use outbound_gpu_worker_pool.Regex.Language.{Matches}
use outbound_gpu_worker_pool.Regex.Decides.{fullmatch-iff-Matches}
use outbound_gpu_worker_pool.Enrollment.{worker_id_pattern, is_worker_id}
use outbound_gpu_worker_pool.Auth.{account_domain_pattern, account_worker, worker_id_from_account}

pub strip_prefix-codes : (p s r : String) → strip_prefix p s ≡ some r → codes s ≡ codes p ++ codes r
unfolding strip_prefix
strip_prefix-codes String.[] s r h = ap codes (some_inj s r h)
  where
    some_inj : (a b : String) → some a ≡ some b → a ≡ b
    some_inj a b e = ap (λ (o : Option String). elim o [ none ↦ a | some x ↦ x ]) e
strip_prefix-codes (String.◌∷◌ c p) String.[] r h = cc
strip_prefix-codes (String.◌∷◌ c p) (String.◌∷◌ d s) r h =
    elim (Bool-cases (nat_eq (code c) (code d))) [
      | inr e ↦ absurd (none≢some (rw e at h))
      | inl e ↦
          cons_eq (sym ((nat_eq_iff (code c) (code d)).0 e)) (strip_prefix-codes p s r (rw e at h))
    ]
  where
    none≢some : none ≡ some r → ⊥
    none≢some q = cc

    cons_eq : {x y : ℕ} {xs ys : List ℕ} → x ≡ y → xs ≡ ys → x ∷ xs ≡ y ∷ ys
    cons_eq p q = cc

-- The two parts of a partition and the separator between them make up the text.
partition-codes :
    (sep : ℕ) (s after : String)
    → (partition sep s).1 ≡ some after
    → codes s ≡ codes (partition sep s).0 ++ sep ∷ codes after
unfolding partition
partition-codes sep String.[] after h = cc
partition-codes sep (String.◌∷◌ c s) after h = elim (Bool-cases (nat_eq (code c) sep)) [
  | inl e ↦ rw e (found (rw e at h) ((nat_eq_iff (code c) sep).0 e))
  | inr e ↦ rw e (ap (λ (xs : List ℕ). code c ∷ xs) (partition-codes sep s after (rw e at h)))
]
  where
    found : some s ≡ some after → code c ≡ sep → code c ∷ codes s ≡ sep ∷ codes after
    found q e = cc

-- The text is the prefix, a worker id, `@` and the domain of a service account.
pub record NamesWorker (p email worker_id : String) : Type 0 where
  pub domain : String
  pub whole : codes email ≡ (codes p ++ codes worker_id) ++ b'@' ∷ codes domain
  pub is_id : Matches worker_id_pattern (codes worker_id)
  pub is_domain : Matches account_domain_pattern (codes domain)

account_worker-ok :
    (o : Option String) (worker_id : String)
    → account_worker o ≡ ok worker_id
    → (o ≡ some worker_id) × (is_worker_id worker_id ≡ true)
account_worker-ok none worker_id h = cc
account_worker-ok (some x) worker_id h = elim (Bool-cases (is_worker_id x)) [
  | inr e ↦ absurd (err≢ok (rw e at h))
  | inl e ↦ (
    ap (λ (y : String). some y) (same (rw e at h)),
    subst (λ (y : String). is_worker_id y ≡ true) (same (rw e at h)) e,
  )
]
  where
    err≢ok :
        err (worker_auth_error "identity subject does not name a valid worker id") ≡ ok worker_id
        → ⊥
    err≢ok q = cc

    same : ok x ≡ ok worker_id → x ≡ worker_id
    same q = ap (λ (r : Result String). elim r [ ok y ↦ y | err e ↦ x ]) q

-- An account from which a worker id is read is the prefix, that id, `@` and the domain of a service
-- account, and nothing else; and the id is a worker id.
pub worker_id_from_account-NamesWorker :
    (email p worker_id : String)
    → worker_id_from_account email p ≡ ok worker_id
    → NamesWorker p email worker_id
unfolding worker_id_from_account is_worker_id
worker_id_from_account-NamesWorker email p worker_id h =
    elim (Option-cases (partition b'@' email).1) [
      | inl n ↦ absurd (err≢ok (rw n at h))
      | inr (domain, d) ↦ elim (Bool-cases (fullmatch account_domain_pattern (codes domain))) [
        | inr b ↦ absurd (err≢ok (rw (d, b) at h))
        | inl b ↦
            let x =
              account_worker-ok (strip_prefix p (partition b'@' email).0) worker_id
                (rw (d, b) at h) in
            record {
              domain = domain;
              whole =
                  partition-codes b'@' email domain d
                  ∙ ap (λ (xs : List ℕ). xs ++ b'@' ∷ codes domain)
                      (strip_prefix-codes p (partition b'@' email).0 worker_id x.0);
              is_id = (fullmatch-iff-Matches worker_id_pattern (codes worker_id)).0 x.1;
              is_domain = (fullmatch-iff-Matches account_domain_pattern (codes domain)).0 b;
            }
      ]
    ]
  where
    err≢ok : err (worker_auth_error "identity subject is not a worker account") ≡ ok worker_id → ⊥
    err≢ok q = cc
