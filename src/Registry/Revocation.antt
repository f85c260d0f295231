-- ===== src/Registry/Revocation.antt =====
-- What a worker's own reports cannot change in its row.
use outbound_gpu_worker_pool.Base.{
  ℕ, String, ◌≡◌, refl, sym, ap, ◌∙◌, subst, ◌≢◌, inl, inr, true, Option, none, some, List, [], ◌∷◌,
  arith, eq_iff, Bool-cases, Option-cases, ℤ_eq, ◌==◌, ℕ_eq, String_eq, option_beq_iff, Option_eq,
  List_eq, get, get-put, get-put_ne,
}
use outbound_gpu_worker_pool.Contracts.{
  Result-cases, ok, WorkerStatus, WorkerRegistration, WorkerRecord,
}
use outbound_gpu_worker_pool.Registry.{
  is_revoked, check_binding, next_status, registered_record, admits, upsert, with_status,
  set_status, WorkerRegistry,
}
use outbound_gpu_worker_pool.Registry.Bindings.{
  registry_step, registry_run, registry_step-Writes, some_inj, admits-free, RegistryCall, reports,
  marks, Writes, idle, upserts, restates,
}

-- The binding of a worker: its subject, its tenant, and when it was first seen.
pub record SameBinding (w v : WorkerRecord) : Type 0 where
  pub identity_subject : v.identity_subject ≡ w.identity_subject
  pub tenant_id : v.tenant_id ≡ w.tenant_id
  pub created_at : v.created_at ≡ w.created_at

-- The row is there, with the same binding.
abbrev pub StillBound : WorkerRecord → Option WorkerRecord → Type 0
StillBound w none = ⊥
StillBound w (some v) = SameBinding w v

admits-binding :
    (g : WorkerRegistration) (subject : String) (st : WorkerRegistry) (w : WorkerRecord)
    → admits g subject st ≡ ok tt
    → get g.worker_id st.workers ≡ some w
    → (w.identity_subject ≡ subject) × (w.tenant_id ≡ g.tenant_id)
unfolding check_binding
admits-binding g subject st w h e = bound (
    subst (λ (o : Option WorkerRecord). check_binding g subject o ≡ ok tt) e
      (admits-free g subject st h).0)
  where
    bound :
        check_binding g subject (some w) ≡ ok tt
        → (w.identity_subject ≡ subject) × (w.tenant_id ≡ g.tenant_id)
    bound q = (
      ground (arith, q, eq_iff w.identity_subject subject),
      ground (arith, q, option_beq_iff w.tenant_id g.tenant_id),
    )

Writes-StillBound :
    (st t : WorkerRegistry) (k : String) (w : WorkerRecord)
    → Writes st t
    → get k st.workers ≡ some w
    → StillBound w (get k t.workers)
unfolding registered_record with_status
Writes-StillBound st t k w (idle e) h =
    rw (e, h) (record { identity_subject = refl; tenant_id = refl; created_at = refl })
Writes-StillBound st t k w (upserts g subject now a e) h = elim (Bool-cases (g.worker_id == k)) [
  | inr n ↦
      rw
        (
          e,
          get-put g.worker_id k (registered_record g subject now (get g.worker_id st.workers))
              st.workers,
          n,
          h,
        )
        (record { identity_subject = refl; tenant_id = refl; created_at = refl })
  | inl n ↦
      let q = ap (λ (x : String). get x st.workers) ((eq_iff g.worker_id k).0 n) ∙ h in
      let b = admits-binding g subject st w a q in
      rw
        (
          e,
          get-put g.worker_id k (registered_record g subject now (get g.worker_id st.workers))
              st.workers,
          n,
        )
        (record { identity_subject = sym b.0; tenant_id = sym b.1; created_at = rw q refl })
]
Writes-StillBound st t k w (restates j status now v g e) h = elim (Bool-cases (j == k)) [
  | inr n ↦
      rw (e, get-put j k (with_status status now v) st.workers, n, h)
        (record { identity_subject = refl; tenant_id = refl; created_at = refl })
  | inl n ↦
      let q = some_inj v w (sym g ∙ ap (λ (x : String). get x st.workers) ((eq_iff j k).0 n) ∙ h) in
      rw (e, get-put j k (with_status status now v) st.workers, n)
        (record {
          identity_subject = ap (λ (x : WorkerRecord). x.identity_subject) q;
          tenant_id = ap (λ (x : WorkerRecord). x.tenant_id) q;
          created_at = ap (λ (x : WorkerRecord). x.created_at) q;
        })
]

SameBinding-trans :
    {w v : WorkerRecord} (o : Option WorkerRecord)
    → SameBinding w v
    → StillBound v o
    → StillBound w o
SameBinding-trans none a b = b
SameBinding-trans (some u) a b = record {
  identity_subject = b.identity_subject ∙ a.identity_subject;
  tenant_id = b.tenant_id ∙ a.tenant_id;
  created_at = b.created_at ∙ a.created_at;
}

-- No history of reports and status changes loses a worker, or moves it to another identity subject
-- or another tenant.
pub registry_run-StillBound :
    (cs : List (RegistryCall × ℕ)) (st : WorkerRegistry) (k : String) (w : WorkerRecord)
    → get k st.workers ≡ some w
    → StillBound w (get k (registry_run cs st).workers)
unfolding registry_run
registry_run-StillBound [] st k w h =
    rw h (record { identity_subject = refl; tenant_id = refl; created_at = refl })
registry_run-StillBound ((c, now) ∷ cs) st k w h =
    elim (Option-cases (get k (registry_step c now st).workers)) [
      | inl e ↦
          absurd
            (subst (StillBound w) e (Writes-StillBound st _ k w (registry_step-Writes c now st) h))
      | inr (v, e) ↦
          SameBinding-trans _
            (subst (StillBound w) e (Writes-StillBound st _ k w (registry_step-Writes c now st) h))
            (registry_run-StillBound cs (registry_step c now st) k v e)
    ]

-- No host restates the worker's status.
abbrev pub Unmarked : String → List (RegistryCall × ℕ) → Type 0
Unmarked k [] = Unit {0}
Unmarked k ((marks j status, now) ∷ cs) = (j ≢ k) × Unmarked k cs
Unmarked k ((reports g subject, now) ∷ cs) = Unmarked k cs

abbrev pub RevokedAt : String → WorkerRegistry → Type 0
RevokedAt k st = (w : WorkerRecord) × (get k st.workers ≡ some w) × (is_revoked w.status ≡ true)

report-RevokedAt :
    (g : WorkerRegistration) (subject : String) (now : ℕ) (k : String) (st : WorkerRegistry)
    → RevokedAt k st
    → RevokedAt k (upsert g subject now st).1
unfolding upsert registered_record next_status
report-RevokedAt g subject now k st (w, h, r) = elim (Result-cases (admits g subject st)) [
  | inr (x, e) ↦ rw (upsert, e) (w, h, r)
  | inl (a, e) ↦ elim (Bool-cases (g.worker_id == k)) [
    | inr n ↦ rw (upsert, e) (w, rw (get-put g.worker_id k _ st.workers, n) h, r)
    | inl n ↦
        let q = ap (λ (x : String). get x st.workers) ((eq_iff g.worker_id k).0 n) ∙ h in
        rw (upsert, e)
          (
            registered_record g subject now (get g.worker_id st.workers),
            rw (get-put g.worker_id k _ st.workers, n) refl,
            subst
                (λ (o : Option WorkerRecord).
                  is_revoked (registered_record g subject now o).status ≡ true)
                (sym q) (still r),
          )
  ]
]
  where
    still : is_revoked w.status ≡ true → is_revoked (next_status g.is_draining (some w)) ≡ true
    still t = rw t refl

mark-RevokedAt :
    (j : String) (status : WorkerStatus) (now : ℕ) (k : String) (st : WorkerRegistry)
    → j ≢ k
    → RevokedAt k st
    → RevokedAt k (set_status j status now st).1
unfolding set_status
mark-RevokedAt j status now k st n (w, h, r) = elim (Option-cases (get j st.workers)) [
  | inl e ↦ rw (set_status, e) (w, h, r)
  | inr (v, e) ↦ rw (set_status, e) (w, get-put_ne j k _ st.workers n ∙ h, r)
]

-- A revoked worker stays revoked through any history in which no host restates its own status,
-- however often it reports.
pub registry_run-RevokedAt :
    (cs : List (RegistryCall × ℕ)) (st : WorkerRegistry) (k : String)
    → Unmarked k cs
    → RevokedAt k st
    → RevokedAt k (registry_run cs st)
unfolding registry_run registry_step
registry_run-RevokedAt [] st k u r = r
registry_run-RevokedAt ((reports g subject, now) ∷ cs) st k u r =
    registry_run-RevokedAt cs (upsert g subject now st).1 k u
      (report-RevokedAt g subject now k st r)
registry_run-RevokedAt ((marks j status, now) ∷ cs) st k u r =
    registry_run-RevokedAt cs (set_status j status now st).1 k u.1
      (mark-RevokedAt j status now k st u.0 r)
