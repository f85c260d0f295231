-- ===== src/JobStore/Replay.antt =====
-- A submission that is sent again replays the job that it made.
use outbound_gpu_worker_pool.Base.{
  ℕ, String, ◌≡◌, refl, sym, subst, ◌≢◌, true, false, Option, some, List, [], ◌∷◌, arith, eq_iff,
  nat_eq, length, int_eq, int_eq_iff, ℤ_eq, ℤ, ◌==◌, ℕ_eq, String_eq, option_beq_iff, list_beq_iff,
  Option_eq, List_eq, Dict, get,
}
use outbound_gpu_worker_pool.Contracts.{
  ok, value_eq, dict, Fields, JobRequirements, JobSubmission, JobRecord, SubmissionResult,
}
use outbound_gpu_worker_pool.JobStore.{
  all_entries, requirements_eq, replays, new_record, Answer, JobStore,
}
use outbound_gpu_worker_pool.Contracts.Values.Same.{Tidy, value_eq_refl}
use outbound_gpu_worker_pool.Stdlib.{Stdlib}
use outbound_gpu_worker_pool.JobStore.Lifecycle.{SameRequest}
use outbound_gpu_worker_pool.JobStore.Keyed.{Keyed}

list_beq_refl : (xs : List String) → (xs == xs) ≡ true
list_beq_refl xs = (list_beq_iff xs xs).1 refl

int_eq_refl : (n : ℤ) → int_eq n n ≡ true
int_eq_refl n = (int_eq_iff n n).1 refl

option_text_refl : (o : Option String) → (o == o) ≡ true
option_text_refl o = (option_beq_iff o o).1 refl

option_int_refl : (o : Option ℤ) → (o == o) ≡ true
option_int_refl o = (option_beq_iff o o).1 refl

-- The keys of a dict differ.
abbrev pub NoEntry : String → Dict String → Type 0
NoEntry k [] = Unit {0}
NoEntry k ((j, v) ∷ d) = (j ≢ k) × NoEntry k d

abbrev pub IsDict : Dict String → Type 0
IsDict [] = Unit {0}
IsDict ((k, v) ∷ d) = NoEntry k d × IsDict d

all_entries-cons :
    (r d : Dict String) (k v : String)
    → NoEntry k r
    → all_entries r d ≡ true
    → all_entries r ((k, v) ∷ d) ≡ true
unfolding get
all_entries-cons [] d k v n h = refl
all_entries-cons ((j, w) ∷ r) d k v n h =
    ground (arith, eq_iff k j, n.0, all_entries-cons r d k v n.1)

all_entries_refl : (d : Dict String) → IsDict d → all_entries d d ≡ true
unfolding get
all_entries_refl [] h = refl
all_entries_refl ((k, v) ∷ d) h =
    ground (arith, eq_iff k k, eq_iff v v, all_entries-cons d d k v h.0 (all_entries_refl d h.1))

nat_eq_refl : (n : ℕ) → nat_eq n n ≡ true
nat_eq_refl n = ground arith

requirements_eq_refl :
    (r : JobRequirements) → IsDict r.runtime_versions → requirements_eq r r ≡ true
unfolding requirements_eq
requirements_eq_refl r h =
    rw
      (
        option_int_refl r.min_vram_mb,
        list_beq_refl r.gpu_models,
        list_beq_refl r.labels,
        list_beq_refl r.worker_ids,
        nat_eq_refl (length r.runtime_versions),
      )
      (all_entries_refl r.runtime_versions h)

-- A job that was made by a submission, at any time of its life, is what the submission asks for.
pub SameRequest-replays :
    (s : JobSubmission) (digest : String) (now : ℕ) (r : JobRecord)
    → Tidy (dict s.payload)
    → IsDict s.requirements.runtime_versions
    → SameRequest (new_record s digest now) r
    → replays r s ≡ true
unfolding replays new_record
SameRequest-replays s digest now r tidy versions h = ground (
  arith,
  (eq_iff r.capability_id s.capability_id).1 h.capability_id,
  (int_eq_iff r.contract_version s.contract_version).1 h.contract_version,
  (list_beq_iff r.input_keys s.input_keys).1 h.input_keys,
  (eq_iff r.output_key s.output_key).1 h.output_key,
  subst (λ (x : Fields). value_eq (dict x) (dict s.payload) ≡ true) (sym h.payload)
      (value_eq_refl (dict s.payload) tidy),
  (option_beq_iff r.tenant_id s.tenant_id).1 h.tenant_id,
  subst (λ (x : JobRequirements). requirements_eq x s.requirements ≡ true) (sym h.requirements)
      (requirements_eq_refl s.requirements versions),
  (int_eq_iff r.priority s.priority).1 h.priority,
  (int_eq_iff r.attempt_budget s.attempt_budget).1 h.attempt_budget,
  (int_eq_iff r.execution_deadline_seconds s.execution_deadline_seconds).1 h.deadline,
)

-- A second submission that replays the job: the store stays as it is, and the answer is the
-- record that the job has by now.
abbrev pub Replayed : JobSubmission → JobStore → Answer SubmissionResult → Type 0
Replayed s st a =
    (r : JobRecord) × (get s.job_id st.records ≡ some r)
    × (a ≡ (ok (record { submitted = r; created = false }), st))
