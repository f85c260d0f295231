-- ===== src/Sampler/Readings.antt =====
-- What a sample returns, and what a sequence of samples logs.
use outbound_gpu_worker_pool.Base.{
  ◌≤◌, String, ◌≡◌, refl, ◌⊎◌, inl, inr, Bool, true, false, ◌||◌, none, some, List, [], ◌∷◌, map,
  arith, if◌then◌else◌, Bool-cases, Option-cases, length, is_empty, split, ℤ_eq, ◌==◌, ℕ_eq,
  String_eq, Option_eq, List_eq,
}
use outbound_gpu_worker_pool.Contracts.{◌>>=◌, Error, value_error, Result, ok, err, GpuTelemetry}
use outbound_gpu_worker_pool.Stdlib.{Stdlib}
use outbound_gpu_worker_pool.Sampler.{
  finished, timed_out, failed_to_run, run_raised, warn_once, resolve_binary, splitlines,
  int_or_raise, optional_int, telemetry_of, parse_lines, parse_csv, parsed, sampled, sample, Ran,
  Machine, Sampler,
}

-- A value, or a `ValueError`.
abbrev Parses : {A : Type 0} → Result A → Type 0
Parses {A = A} r = ((a : A) × (r ≡ ok a)) ⊎ ((m : String) × (r ≡ err (value_error m)))

abbrev pub is_returned : {A : Type 0} → Result A → Bool
is_returned (ok a) = true
is_returned (err e) = false

-- A sample returns, or raises what running the binary raised.
abbrev pub Answers : Machine → Result (List GpuTelemetry) → Type 0
Answers m r =
    (is_returned r ≡ true)
    ⊎ ((binary : String) × (e : Error) × (m.run binary ≡ run_raised e) × (r ≡ err e))

-- Each machine's sample, in their order.
abbrev pub AnswersAll : List Machine → List (Result (List GpuTelemetry)) → Type 0
AnswersAll [] [] = Unit
AnswersAll (m ∷ ms) (r ∷ rs) = Answers m r × AnswersAll ms rs
AnswersAll _ _ = ⊥

-- No warning before the flag is set, and one from then on.
abbrev pub SamplerIsQuiet : Sampler → Type 0
SamplerIsQuiet g = length g.warnings ≡ (if g.warned then 1 else 0)

then-Parses :
    {A B : Type 0} (r : Result A) (next : A → Result B)
    → Parses r
    → ((a : A) → Parses (next a))
    → Parses (r >>= next)
then-Parses r next (inl (a, e)) h = rw e (h a)
then-Parses r next (inr (m, e)) h = rw e (inr (m, refl))

module _ (lib : Stdlib) where
  int_or_raise-Parses : (s : String) → Parses (int_or_raise lib s)
  unfolding int_or_raise
  int_or_raise-Parses s = elim (Option-cases (lib.int_of s)) [
    | inl e ↦ rw (int_or_raise, e) (inr (_, refl))
    | inr (n, e) ↦ rw (int_or_raise, e) (inl (n, refl))
  ]

  optional_int-Parses : (s : String) → Parses (optional_int lib s)
  unfolding optional_int
  optional_int-Parses s = elim (Bool-cases (s == "[N/A]" || is_empty s)) [
    | inl e ↦ rw e (inl (none, refl))
    | inr e ↦ rw e (
        then-Parses (int_or_raise lib s) (λ n. ok (some n)) (int_or_raise-Parses s)
          (λ n. inl (some n, refl)))
  ]

  telemetry_of-Parses : (fields : List String) → Parses (telemetry_of lib fields)
  unfolding telemetry_of
  telemetry_of-Parses (i ∷ name ∷ u ∷ used ∷ total ∷ []) =
      then-Parses (int_or_raise lib i) _ (int_or_raise-Parses i) (λ _.
        then-Parses (optional_int lib u) _ (optional_int-Parses u) (λ _.
          then-Parses (optional_int lib used) _ (optional_int-Parses used) (λ _.
            then-Parses (optional_int lib total) _ (optional_int-Parses total)
              (λ _. inl (_, refl)))))
  telemetry_of-Parses _ = inr (_, refl)

  parse_lines-Parses : (ls : List String) → Parses (parse_lines lib ls)
  unfolding parse_lines
  parse_lines-Parses [] = inl ([], refl)
  parse_lines-Parses (l ∷ ls) = elim (Bool-cases (is_empty (lib.strip l))) [
    | inl e ↦ rw e (parse_lines-Parses ls)
    | inr e ↦ rw e (
        then-Parses (telemetry_of lib (map lib.strip (split b',' (lib.strip l)))) _
          (telemetry_of-Parses (map lib.strip (split b',' (lib.strip l))))
          (λ g. then-Parses (parse_lines lib ls) _ (parse_lines-Parses ls) (λ gs. inl (_, refl))))
  ]

  warn_once-IsQuiet :
      (message : String) (g : Sampler) → SamplerIsQuiet g → SamplerIsQuiet (warn_once message g)
  unfolding warn_once
  warn_once-IsQuiet message g quiet = ground (arith, quiet)

  -- A sample that keeps the warnings to one.
  abbrev Sampled : Machine → Result (List GpuTelemetry) × Sampler → Type 0
  Sampled m (r, g) = Answers m r × SamplerIsQuiet g

  parsed-Sampled :
      (m : Machine) (r : Result (List GpuTelemetry)) (g : Sampler)
      → Parses r
      → SamplerIsQuiet g
      → Sampled m (parsed lib r g)
  unfolding parsed
  parsed-Sampled m r g (inl (gpus, e)) quiet = rw e (inl refl, quiet)
  parsed-Sampled m r g (inr (why, e)) quiet = rw e (inl refl, warn_once-IsQuiet _ g quiet)

  sampled-Sampled :
      (m : Machine) (binary : String) (ran : Ran) (g : Sampler)
      → m.run binary ≡ ran
      → SamplerIsQuiet g
      → Sampled m (sampled lib m ran g)
  unfolding sampled parse_csv
  sampled-Sampled m binary (finished stdout) g h quiet =
      parsed-Sampled m _ g (parse_lines-Parses (splitlines stdout)) quiet
  sampled-Sampled m binary timed_out g h quiet = (inl refl, warn_once-IsQuiet _ g quiet)
  sampled-Sampled m binary (failed_to_run text) g h quiet = (inl refl, warn_once-IsQuiet _ g quiet)
  sampled-Sampled m binary (run_raised e) g h quiet = (inr (binary, e, h, refl), quiet)

  sample-Sampled : (m : Machine) (g : Sampler) → SamplerIsQuiet g → Sampled m (sample lib m g)
  unfolding sample
  sample-Sampled m g quiet = elim (Option-cases (resolve_binary m g)) [
    | inl e ↦ rw (sample, e) (inl refl, warn_once-IsQuiet _ g quiet)
    | inr (binary, e) ↦ rw (sample, e) (sampled-Sampled m binary (m.run binary) g refl quiet)
  ]

  -- The agent's samples, one after another; the machine may change between them.
  unfoldable pub samples : List Machine → Sampler → List (Result (List GpuTelemetry)) × Sampler
  unfolding sample
  samples [] g = ([], g)
  samples (m ∷ ms) g =
      let (r, g1) = sample lib m g in let (rs, last) = samples ms g1 in (r ∷ rs, last)

  -- Every sample of a sequence returns a list of GPUs, but where running the binary raises an
  -- exception that `sample` does not catch: that very exception is then what the sample raises. And
  -- the sequence logs one warning at most, however often the binary is missing, times out, fails or
  -- prints what cannot be parsed.
  pub samples-Returned :
      (ms : List Machine) (g : Sampler)
      → SamplerIsQuiet g
      → AnswersAll ms (samples ms g).0 × (length (samples ms g).1.warnings ≤ 1)
  unfolding samples
  samples-Returned [] g quiet = (tt, ground (arith, quiet))
  samples-Returned (m ∷ ms) g quiet =
      let first = sample-Sampled m g quiet in
      let rest = samples-Returned ms (sample lib m g).1 first.1 in ((first.0, rest.0), rest.1)
