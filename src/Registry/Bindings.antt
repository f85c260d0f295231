-- ===== src/Registry/Bindings.antt =====
-- What no history of heartbeats and status changes breaks: one worker for each subject, and a
-- worker's binding to its subject and tenant.
use outbound_gpu_worker_pool.Base.{
  ℕ, String, ◌≡◌, refl, sym, ap, ◌∙◌, ◌⊎◌, inl, inr, Bool, true, false, Option, none, some, List,
  [], ◌∷◌, arith, eq_iff, Bool-cases, Option-cases, In, ℤ_eq, ◌==◌, ℕ_eq, String_eq, Option_eq,
  List_eq, Dict, get, put, values, get-put, get-In,
}
use outbound_gpu_worker_pool.Contracts.{
  raise_if, >>=-eq-ok, Result-cases, Error, ok, WorkerStatus, WorkerRegistration, WorkerRecord,
}
use outbound_gpu_worker_pool.Registry.{
  subject_taken, check_binding, registered_record, admits, upsert, with_status, set_status,
  WorkerRegistry,
}

pub data RegistryCall : Type 0 where
  reports : WorkerRegistration → String → RegistryCall
  marks : String → WorkerStatus → RegistryCall

unfoldable pub registry_step : RegistryCall → ℕ → WorkerRegistry → WorkerRegistry
registry_step (reports g subject) now st = (upsert g subject now st).1
registry_step (marks worker_id status) now st = (set_status worker_id status now st).1

unfoldable pub registry_run : List (RegistryCall × ℕ) → WorkerRegistry → WorkerRegistry
registry_run [] st = st
registry_run ((c, now) ∷ cs) st = registry_run cs (registry_step c now st)

-- Every row stands under its worker's id, and no two rows share an identity subject.
pub record RegistryIsValid (st : WorkerRegistry) : Type 0 where
  pub named : (k : String) (w : WorkerRecord) → get k st.workers ≡ some w → w.worker_id ≡ k
  pub separate :
      (k j : String) (w v : WorkerRecord)
      → get k st.workers ≡ some w
      → get j st.workers ≡ some v
      → w.identity_subject ≡ v.identity_subject
      → k ≡ j

-- What a call does to the registry: nothing, or one row is written.
pub data Writes (st t : WorkerRegistry) : Type 0 where
  idle : t ≡ st → Writes st t
  upserts :
      (g : WorkerRegistration) (subject : String) (now : ℕ)
      → admits g subject st ≡ ok tt
      → t ≡ record {
        workers =
            put g.worker_id
              (registered_record g subject now (get g.worker_id st.workers))
              st.workers;
      }
      → Writes st t
  restates :
      (k : String) (status : WorkerStatus) (now : ℕ) (w : WorkerRecord)
      → get k st.workers ≡ some w
      → t ≡ record { workers = put k (with_status status now w) st.workers }
      → Writes st t

pub registry_step-Writes :
    (c : RegistryCall) (now : ℕ) (st : WorkerRegistry) → Writes st (registry_step c now st)
unfolding registry_step upsert set_status
registry_step-Writes (reports g subject) now st = elim (Result-cases (admits g subject st)) [
  | inl (a, e) ↦ rw (registry_step, upsert, e) (upserts g subject now e refl)
  | inr (x, e) ↦ rw (registry_step, upsert, e) (idle refl)
]
registry_step-Writes (marks k status) now st = elim (Option-cases (get k st.workers)) [
  | inl e ↦ rw (registry_step, set_status, e) (idle refl)
  | inr (w, e) ↦ rw (registry_step, set_status, e) (restates k status now w e refl)
]

pub some_inj : (w v : WorkerRecord) → some w ≡ some v → w ≡ v
some_inj w v e = ap (λ (o : Option WorkerRecord). elim o [ none ↦ w | some x ↦ x ]) e

-- One row, old or new, of the registry after a write.
get-put-cases :
    (id k : String) (w v : WorkerRecord) (d : Dict WorkerRecord)
    → get k (put id w d) ≡ some v
    → ((id ≡ k) × (w ≡ v)) ⊎ (get k d ≡ some v)
get-put-cases id k w v d h = elim (Bool-cases (id == k)) [
  | inl e ↦ inl ((eq_iff id k).0 e, some_inj w v (sym (rw (get-put id k w d, e) refl) ∙ h))
  | inr e ↦ inr (sym (rw (get-put id k w d, e) refl) ∙ h)
]

put-RegistryIsValid :
    (st : WorkerRegistry) (id : String) (w : WorkerRecord)
    → RegistryIsValid st
    → w.worker_id ≡ id
    → ((j : String) (v : WorkerRecord)
        → get j st.workers ≡ some v
        → v.identity_subject ≡ w.identity_subject
        → j ≡ id)
    → RegistryIsValid (record { workers = put id w st.workers })
put-RegistryIsValid st id w r n f = record {
  named = λ k v h. elim (get-put-cases id k w v st.workers h) [
    | inl (e, q) ↦ ap (λ (x : WorkerRecord). x.worker_id) (sym q) ∙ n ∙ e
    | inr g ↦ r.named k v g
  ];
  separate = λ k j v u h i q. elim (get-put-cases id k w v st.workers h) [
    | inl (e, x) ↦ elim (get-put-cases id j w u st.workers i) [
      | inl (e', y) ↦ sym e ∙ e'
      | inr g ↦
          sym e ∙ sym (f j u g (sym q ∙ ap (λ (z : WorkerRecord). z.identity_subject) (sym x)))
    ]
    | inr g ↦ elim (get-put-cases id j w u st.workers i) [
      | inl (e', y) ↦ f k v g (q ∙ ap (λ (z : WorkerRecord). z.identity_subject) (sym y)) ∙ e'
      | inr g' ↦ r.separate k j v u g g' q
    ]
  ];
}

subject_taken-false :
    (subject worker_id : String) (ws : List WorkerRecord) (w : WorkerRecord)
    → subject_taken subject worker_id ws ≡ false
    → In w ws
    → w.identity_subject ≡ subject
    → w.worker_id ≡ worker_id
unfolding subject_taken
subject_taken-false subject worker_id [] w h i q = absurd i
subject_taken-false subject worker_id (x ∷ ws) w h (inl e) q =
    ground (arith, h, e, q, eq_iff x.identity_subject subject, eq_iff x.worker_id worker_id)
subject_taken-false subject worker_id (x ∷ ws) w h (inr i) q =
    subject_taken-false subject worker_id ws w (ground (arith, h)) i q

-- What an admitted heartbeat has shown of the worker's own row, and of the others.
pub admits-free :
    (g : WorkerRegistration) (subject : String) (st : WorkerRegistry)
    → admits g subject st ≡ ok tt
    → (check_binding g subject (get g.worker_id st.workers) ≡ ok tt)
      × (subject_taken subject g.worker_id (values st.workers) ≡ false)
unfolding admits
admits-free g subject st h =
    let x = >>=-eq-ok (check_binding g subject (get g.worker_id st.workers)) _ h in
    (binding x.0 x.1, no_raise _ _ x.2)
  where
    binding :
        (u : Unit {0})
        → check_binding g subject (get g.worker_id st.workers) ≡ ok u
        → check_binding g subject (get g.worker_id st.workers) ≡ ok tt
    binding u e = e

    no_raise : (b : Bool) (x : Error) → raise_if b x ≡ ok tt → b ≡ false
    no_raise true x e = cc
    no_raise false x e = refl

Writes-RegistryIsValid :
    (st t : WorkerRegistry) → RegistryIsValid st → Writes st t → RegistryIsValid t
unfolding registered_record with_status
Writes-RegistryIsValid st t r (idle e) = rw e r
Writes-RegistryIsValid st t r (upserts g subject now h e) = rw e (
    put-RegistryIsValid st g.worker_id
      (registered_record g subject now (get g.worker_id st.workers)) r refl
      (λ j v i q.
        sym (r.named j v i)
        ∙ subject_taken-false subject g.worker_id (values st.workers) v
            (admits-free g subject st h).1 (get-In j v st.workers i) q))
Writes-RegistryIsValid st t r (restates k status now w g e) = rw e (
    put-RegistryIsValid st k (with_status status now w) r (r.named k w g)
      (λ j v i q. r.separate j k v w i g q))

-- Whatever workers report and hosts decide, every row of the registry stays under its worker's id,
-- and no two workers ever share an identity subject.
pub registry_run-RegistryIsValid :
    (cs : List (RegistryCall × ℕ)) (st : WorkerRegistry)
    → RegistryIsValid st
    → RegistryIsValid (registry_run cs st)
unfolding registry_run
registry_run-RegistryIsValid [] st r = r
registry_run-RegistryIsValid ((c, now) ∷ cs) st r =
    registry_run-RegistryIsValid cs (registry_step c now st)
      (Writes-RegistryIsValid st _ r (registry_step-Writes c now st))
