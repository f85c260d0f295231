-- ===== src/Validation/Bounds.antt =====
-- What a validated submission satisfies, stated with no Boolean test.
use outbound_gpu_worker_pool.Base.{
  ℕ, ◌+◌, ◌≤◌, String, ◌≡◌, refl, subst, true, false, not, Option, none, some, List, [], ◌∷◌, ◌++◌,
  arith, ltb, length, any, All, In, contains, In→contains, distinct, len, ◌≤ℤ◌, ℤ_eq, ℤ, pos, ℕ_eq,
  String_eq, Option_eq, List_eq, values, keys,
}
use outbound_gpu_worker_pool.Contracts.{
  ◌>>=◌, raise_if, value_error, Result, ok, err, max_job_payload_bytes, dict, Fields,
  JobRequirements, JobSubmission,
}
use outbound_gpu_worker_pool.Stdlib.{Stdlib}
use outbound_gpu_worker_pool.Json.{dumps}
use outbound_gpu_worker_pool.Validation.{
  capability_id_matches, validate_capability_id, validate_json_tree, validate_job_payload,
  bad_length, check_texts, out_of_range, bad_vram, validate_job_requirements, bad_text,
  validate_job_submission,
}
use outbound_gpu_worker_pool.Validation.Depth.{height, AllFinite, validate_json_tree_iff}

abbrev pub Bounded : ℕ → String → Type 0
Bounded maximum s = (1 ≤ len s) × (len s ≤ maximum)

abbrev pub Bounded? : ℕ → Option String → Type 0
Bounded? maximum none = Unit {0}
Bounded? maximum (some s) = Bounded maximum s

abbrev pub InRange : ℕ → ℕ → ℤ → Type 0
InRange lo hi n = (pos lo ≤ℤ n) × (n ≤ℤ pos hi)

abbrev pub InRange? : ℕ → ℕ → Option ℤ → Type 0
InRange? lo hi none = Unit {0}
InRange? lo hi (some n) = InRange lo hi n

-- The payload has a canonical form, of at most so many bytes.
abbrev pub Fits : ℕ → Result (List ℕ) → Type 0
Fits maximum (ok t) = length t ≤ maximum
Fits maximum (err e) = ⊥

-- The list has no element twice.
abbrev pub NoRepeat : List String → Type 0
NoRepeat [] = Unit {0}
NoRepeat (x ∷ xs) = (¬ In x xs) × NoRepeat xs

abbrev pub FewTexts : List String → Type 0
FewTexts xs = (length xs ≤ 16) × All (Bounded 128) xs

pub record AreBounded (r : JobRequirements) : Type 0 where
  pub vram : InRange? 0 1000000 r.min_vram_mb
  pub models : FewTexts r.gpu_models
  pub labelled : FewTexts r.labels
  pub pinned : FewTexts r.worker_ids
  pub versions : FewTexts (keys r.runtime_versions ++ values r.runtime_versions)

pub record IsBounded (lib : Stdlib) (s : JobSubmission) : Type 0 where
  pub job_id : Bounded 255 s.job_id
  pub idempotency_key : Bounded 255 s.idempotency_key
  pub tenant_id : Bounded? 255 s.tenant_id
  pub output_key : Bounded 1024 s.output_key
  pub few_inputs : length s.input_keys ≤ 16
  pub input_keys : All (Bounded 1024) s.input_keys
  pub no_repeat : NoRepeat s.input_keys
  pub contract_version : pos 1 ≤ℤ s.contract_version
  pub capability_id : Bounded 128 s.capability_id × (capability_id_matches s.capability_id ≡ true)
  pub priority : InRange 0 1000 s.priority
  pub attempt_budget : InRange 1 20 s.attempt_budget
  pub deadline : InRange 60 7200 s.execution_deadline_seconds
  pub requirements : AreBounded s.requirements
  pub tree : (1 + height (dict s.payload) ≤ 8) × AllFinite (dict s.payload)
  pub encoded : Fits 16384 (dumps lib (dict s.payload))

bad_length-Bounded : (m : ℕ) (s : String) → bad_length m s ≡ false → Bounded m s
bad_length-Bounded m s h = (ground arith, ground arith)

bad_text-Bounded : (m : ℕ) (s : Option String) → bad_text m s ≡ false → Bounded? m s
bad_text-Bounded m none h = tt
bad_text-Bounded m (some s) h = bad_length-Bounded m s h

any-Bounded : (m : ℕ) (xs : List String) → any (bad_length m) xs ≡ false → All (Bounded m) xs
any-Bounded m [] h = tt
any-Bounded m (x ∷ xs) h = (bad_length-Bounded m x (ground arith), any-Bounded m xs (ground arith))

contains-false : (x : String) (xs : List String) → contains xs x ≡ false → ¬ In x xs
contains-false x xs h i = cc (In→contains xs x i)

distinct-NoRepeat : (xs : List String) → not (distinct xs) ≡ false → NoRepeat xs
distinct-NoRepeat [] h = tt
distinct-NoRepeat (x ∷ xs) h =
    (contains-false x xs (ground arith), distinct-NoRepeat xs (ground arith))

out_of_range-InRange : (lo hi : ℕ) (n : ℤ) → out_of_range lo hi n ≡ false → InRange lo hi n
out_of_range-InRange lo hi n h = (ground arith, ground arith)

few-FewTexts : (label : String) (xs : List String) → check_texts label xs ≡ ok tt → FewTexts xs
few-FewTexts label xs h = (ground arith, any-Bounded 128 xs (ground arith))

bad_vram-InRange : (v : Option ℤ) → bad_vram v ≡ false → InRange? 0 1000000 v
bad_vram-InRange none h = tt
bad_vram-InRange (some m) h = out_of_range-InRange 0 1000000 m h

validate_job_requirements-AreBounded :
    (r : JobRequirements) → validate_job_requirements r ≡ ok tt → AreBounded r
unfolding validate_job_requirements
validate_job_requirements-AreBounded r h = record {
  vram = bad_vram-InRange r.min_vram_mb (ground arith);
  models = few-FewTexts "gpu_models" r.gpu_models (ground arith);
  labelled = few-FewTexts "labels" r.labels (ground arith);
  pinned = few-FewTexts "worker_ids" r.worker_ids (ground arith);
  versions =
      few-FewTexts "runtime_versions" (keys r.runtime_versions ++ values r.runtime_versions)
        (ground arith);
}

payload-tree :
    (lib : Stdlib) (fs : Fields)
    → validate_job_payload lib fs ≡ ok tt
    → validate_json_tree (dict fs) ≡ ok tt
unfolding validate_job_payload
payload-tree lib fs h = ground arith

encoded-Fits :
    (r : Result (List ℕ)) (k : List ℕ → Result (Unit {0}))
    → k ≡ (λ encoded.
      raise_if
        (ltb max_job_payload_bytes (length encoded))
        (value_error "job payload exceeds 16384 bytes"))
    → (r >>= k) ≡ ok tt
    → Fits 16384 r
encoded-Fits (ok t) k e h =
    let h' = subst (λ (g : List ℕ → Result (Unit {0})). g t ≡ ok tt) e h in ground arith
encoded-Fits (err x) k e h = cc

payload-Fits :
    (lib : Stdlib) (fs : Fields)
    → validate_job_payload lib fs ≡ ok tt
    → Fits 16384 (dumps lib (dict fs))
unfolding validate_job_payload
payload-Fits lib fs h = encoded-Fits (dumps lib (dict fs)) _ refl (ground arith)

-- A submission that validation lets through is within every bound.
pub validate_job_submission-IsBounded :
    (lib : Stdlib) (s : JobSubmission) → validate_job_submission lib s ≡ ok tt → IsBounded lib s
unfolding validate_job_submission validate_capability_id
validate_job_submission-IsBounded lib s h = record {
  job_id = bad_text-Bounded 255 (some s.job_id) (ground arith);
  idempotency_key = bad_text-Bounded 255 (some s.idempotency_key) (ground arith);
  tenant_id = bad_text-Bounded 255 s.tenant_id (ground arith);
  output_key = bad_text-Bounded 1024 (some s.output_key) (ground arith);
  few_inputs = ground arith;
  input_keys = any-Bounded 1024 s.input_keys (ground arith);
  no_repeat = distinct-NoRepeat s.input_keys (ground arith);
  contract_version = ground arith;
  capability_id = ((ground arith, ground arith), ground arith);
  priority = out_of_range-InRange 0 1000 s.priority (ground arith);
  attempt_budget = out_of_range-InRange 1 20 s.attempt_budget (ground arith);
  deadline = out_of_range-InRange 60 7200 s.execution_deadline_seconds (ground arith);
  requirements = validate_job_requirements-AreBounded s.requirements (ground arith);
  tree = (validate_json_tree_iff _).0 (payload-tree lib s.payload (ground arith));
  encoded = payload-Fits lib s.payload (ground arith);
}
