-- ===== src/JobStore/Fencing.antt =====
-- Fencing by claim tokens: a lease that was lost can never be used again.
use outbound_gpu_worker_pool.Base.{
  ℕ, String, ◌≡◌, sym, ap, ◌∙◌, subst, ◌≢◌, inl, inr, false, Option, none, some, List, [], ◌∷◌, get,
}
use outbound_gpu_worker_pool.Contracts.{JobRecord}
use outbound_gpu_worker_pool.Stdlib.{Stdlib}
use outbound_gpu_worker_pool.JobStore.{new_record, cancelled_record, JobStore}
use outbound_gpu_worker_pool.JobStore.Leasing.{leased_record}
use outbound_gpu_worker_pool.JobStore.Settling.{
  leased_job, extended, heartbeat, completed_record, complete, failed_record, fail, released_record,
  release, exhausted_record, Completion, Failure,
}
use outbound_gpu_worker_pool.JobStore.Lifecycle.{
  Lifecycle, granted, renewed, done, gave_up, requeued, withdrawn, spent,
}
use outbound_gpu_worker_pool.JobStore.Keyed.{Keyed}
use outbound_gpu_worker_pool.JobStore.Evolution.{step, mint, run, leased_job-cases, Call}
use outbound_gpu_worker_pool.JobStore.Calls.{step-Evolves, Evolves, unchanged, stepped, created}
use outbound_gpu_worker_pool.JobStore.History.{FreshRun}

-- The job under the id, if there is one, does not carry the token.
abbrev pub NotUnder : String → Option JobRecord → Type 0
NotUnder token none = Unit {0}
NotUnder token (some r) = r.claim_token ≢ some token

-- None of the calls brings the token: `uuid4` never draws it again.
abbrev pub Unminted : String → List (Call × ℕ) → Type 0
Unminted token [] = Unit {0}
Unminted token ((c, now) ∷ cs) = (mint c ≢ some token) × Unminted token cs

none≢some : {t : String} → none ≢ some t
none≢some e = cc

Lifecycle-NotUnder :
    (m : Option String) (token : String) (r s : JobRecord)
    → Lifecycle m r s
    → m ≢ some token
    → r.claim_token ≢ some token
    → s.claim_token ≢ some token
unfolding leased_record extended completed_record failed_record released_record cancelled_record
    exhausted_record
Lifecycle-NotUnder m token r s (granted c t now p l b e) n h =
    λ q. n (p ∙ sym (ap (λ (x : JobRecord). x.claim_token) e) ∙ q)
Lifecycle-NotUnder m token r s (renewed secs progress now p e) n h =
    λ q. h (sym (ap (λ (x : JobRecord). x.claim_token) e) ∙ q)
Lifecycle-NotUnder m token r s (done c now p e) n h = rw e none≢some
Lifecycle-NotUnder m token r s (gave_up f now p e) n h = rw e none≢some
Lifecycle-NotUnder m token r s (requeued reason now p e) n h = rw e none≢some
Lifecycle-NotUnder m token r s (withdrawn now p e) n h = rw e none≢some
Lifecycle-NotUnder m token r s (spent now p e) n h = rw e none≢some

Evolves-NotUnder :
    (m : Option String) (token : String) (a b : Option JobRecord)
    → Evolves m a b
    → m ≢ some token
    → NotUnder token a
    → NotUnder token b
unfolding new_record
Evolves-NotUnder m token a b (unchanged e) n h = rw e h
Evolves-NotUnder m token a b (stepped x y p e l) n h =
    rw e (Lifecycle-NotUnder m token x y l n (subst (NotUnder token) p h))
Evolves-NotUnder m token a b (created s digest now bound p e) n h = rw e none≢some

run-NotUnder :
    (lib : Stdlib) (token k : String) (cs : List (Call × ℕ)) (st : JobStore)
    → FreshRun lib cs st
    → Keyed st.records
    → Unminted token cs
    → NotUnder token (get k st.records)
    → NotUnder token (get k (run lib cs st).records)
unfolding run
run-NotUnder lib token k [] st f h u n = n
run-NotUnder lib token k ((c, now) ∷ cs) st f h u n =
    let g = step-Evolves lib c now st h f.0 in
    run-NotUnder lib token k cs (step lib c now st) f.1 g.1 u.1
      (Evolves-NotUnder (mint c) token _ _ (g.0 k) u.0 n)

NotUnder-leased_job :
    (k token : String) (st : JobStore)
    → NotUnder token (get k st.records)
    → leased_job k token st ≡ none
NotUnder-leased_job k token st n = elim (leased_job-cases k token st) [
  | inl e ↦ e
  | inr (r, e, g, p, q) ↦ absurd (subst (NotUnder token) g n q)
]

-- The four calls under a token are refused and leave the store as it is.
pub record Refused (k token : String) (st : JobStore) : Type 0 where
  pub no_heartbeat :
      (secs : ℕ) (progress : Option ℕ) (now : ℕ)
      → heartbeat k token secs progress now st ≡ (false, st)
  pub no_complete : (c : Completion) (now : ℕ) → complete k token c now st ≡ (false, st)
  pub no_fail : (f : Failure) (now : ℕ) → fail k token f now st ≡ (false, st)
  pub no_release : (reason : String) (now : ℕ) → release k token reason now st ≡ (false, st)

leased_job-Refused :
    (k token : String) (st : JobStore) → leased_job k token st ≡ none → Refused k token st
unfolding heartbeat complete fail release
leased_job-Refused k token st e = record {
  no_heartbeat = λ secs progress now. rw e;
  no_complete = λ c now. rw e;
  no_fail = λ f now. rw e;
  no_release = λ reason now. rw e;
}

-- Once a job is no longer leased under a token, every heartbeat, completion, failure and release
-- with that token is refused and changes nothing, after any history of calls in which the token is
-- not drawn anew. (The store is keyed by the ids of its jobs, and each submission brings a fresh id
-- or that of the job with its own idempotency key.)
pub run-Refused :
    (lib : Stdlib) (k token : String) (cs : List (Call × ℕ)) (st : JobStore)
    → FreshRun lib cs st
    → Keyed st.records
    → Unminted token cs
    → NotUnder token (get k st.records)
    → Refused k token (run lib cs st)
run-Refused lib k token cs st f h u n =
    leased_job-Refused k token (run lib cs st)
      (NotUnder-leased_job k token (run lib cs st) (run-NotUnder lib token k cs st f h u n))
