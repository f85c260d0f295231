-- ===== src/Sampler.antt =====
-- gpu_sampler.py: the telemetry of the local GPUs, from the output of `nvidia-smi`. The machine (its
-- environment, its files and what running a binary gives) is an argument.
pub mod Readings
use Prim.Native.Char.{code}
use outbound_gpu_worker_pool.Base.{
  ℕ, String, Bool, true, false, ◌&&◌, ◌||◌, Option, none, some, List, [], ◌∷◌, map, leb, nat_eq,
  if◌then◌else◌, is_empty, concat, first_line, other_lines, split, ℤ_eq, ℤ, ◌==◌, ℕ_eq, String_eq,
  Option_eq, List_eq, Dict, get,
}
use outbound_gpu_worker_pool.Contracts.{
  ◌>>=◌, ◌>>◌, Error, value_error, Result, ok, err, GpuTelemetry,
}
use outbound_gpu_worker_pool.Stdlib.{Stdlib}

abbrev nvidia_smi_env_var : String
nvidia_smi_env_var = "OGWP_NVIDIA_SMI"

abbrev wsl_nvidia_smi_path : String
wsl_nvidia_smi_path = "/usr/lib/wsl/lib/nvidia-smi"

abbrev not_available : String
not_available = "[N/A]"

-- What `subprocess.run` gives: a standard output, a `TimeoutExpired`, an `OSError` or a
-- `CalledProcessError` with its text, or an exception of another class.
pub data Ran : Type 0 where
  finished : String → Ran
  timed_out : Ran
  failed_to_run : String → Ran
  run_raised : Error → Ran

pub record Machine : Type 0 where
  pub env : Dict String
  pub which_nvidia_smi : Option String
  pub has_wsl_binary : Bool
  pub run : String → Ran
  -- `f"{timeout_seconds}"`
  pub timeout_text : String

-- `_warned`, and the warnings that were logged, the last one first.
pub record Sampler : Type 0 where
  pub binary_override : Option String
  pub warned : Bool
  pub warnings : List String

-- `GpuSampler(binary=...)`
abbrev pub new_sampler : Option String → Sampler
new_sampler binary = record { binary_override = binary; warned = false; warnings = [] }

unfoldable pub warn_once : String → Sampler → Sampler
warn_once message g =
    if g.warned then g else record g { warned = true; warnings = message ∷ g.warnings }

abbrev found_binary : Machine → Option String
found_binary m = elim m.which_nvidia_smi [
  | some path ↦ some path
  | none ↦ if m.has_wsl_binary then some wsl_nvidia_smi_path else none
]

-- An empty value of the variable counts as none.
abbrev env_binary : Machine → Option String → Option String
env_binary m none = found_binary m
env_binary m (some value) = if is_empty value then found_binary m else some value

unfoldable pub resolve_binary : Machine → Sampler → Option String
resolve_binary m g = elim g.binary_override [
  | some path ↦ some path
  | none ↦ env_binary m (get nvidia_smi_env_var m.env)
]

-- The code points at which `splitlines` ends a line; "\r\n" ends one line.
abbrev is_line_end : ℕ → Bool
is_line_end c =
    (leb 10 c && leb c 13)
    || (leb 28 c && leb c 30)
    || nat_eq c 133
    || nat_eq c 8232
    || nat_eq c 8233

abbrev starts_with_newline : String → Bool
starts_with_newline String.[] = false
starts_with_newline (String.◌∷◌ c s) = nat_eq (code c) 10

-- `s.splitlines()`; the newline after a carriage return opens no line of its own.
unfoldable pub splitlines : String → List String
splitlines String.[] = []
splitlines (String.◌∷◌ c s) =
    let rest = splitlines s in
    if nat_eq (code c) 13 && starts_with_newline s
    then rest
    else if is_line_end (code c)
    then "" ∷ rest
    else String.◌∷◌ c (first_line rest) ∷ other_lines rest

module _ (lib : Stdlib) where
  -- `int(s)`
  unfoldable pub int_or_raise : String → Result ℤ
  int_or_raise s = elim (lib.int_of s) [
    | none ↦ err (value_error "invalid literal for int()")
    | some n ↦ ok n
  ]

  unfoldable pub optional_int : String → Result (Option ℤ)
  unfolding int_or_raise
  optional_int value =
      if value == not_available || is_empty value
      then ok none
      else do n ← int_or_raise value; ok (some n)

  unfoldable pub telemetry_of : List String → Result GpuTelemetry
  unfolding int_or_raise optional_int
  telemetry_of (index ∷ name ∷ utilization_pct ∷ memory_used_mb ∷ memory_total_mb ∷ []) = do
    i ← int_or_raise index
    u ← optional_int utilization_pct
    used ← optional_int memory_used_mb
    total ← optional_int memory_total_mb
    ok (record {
      index = i;
      name = name;
      utilization_pct = u;
      memory_used_mb = used;
      memory_total_mb = total;
    })
  telemetry_of _ = err (value_error "expected 5 fields")

  unfoldable pub parse_lines : List String → Result (List GpuTelemetry)
  unfolding telemetry_of split
  parse_lines [] = ok []
  parse_lines (l ∷ ls) =
      let rest = parse_lines ls in
      if is_empty (lib.strip l)
      then rest
      else do g ← telemetry_of (map lib.strip (split b',' (lib.strip l))); gs ← rest; ok (g ∷ gs)

  unfoldable pub parse_csv : String → Result (List GpuTelemetry)
  unfolding splitlines parse_lines
  parse_csv stdout = parse_lines (splitlines stdout)

  -- `except (ValueError, IndexError)`
  unfoldable pub parsed :
      Result (List GpuTelemetry) → Sampler → Result (List GpuTelemetry) × Sampler
  unfolding warn_once
  parsed (ok gpus) g = (ok gpus, g)
  parsed (err (value_error m)) g =
      (ok [], warn_once (concat "nvidia-smi output could not be parsed: " m) g)
  parsed (err e) g = (err e, g)

  unfoldable pub sampled : Machine → Ran → Sampler → Result (List GpuTelemetry) × Sampler
  unfolding parsed parse_csv warn_once
  sampled m (finished stdout) g = parsed (parse_csv stdout) g
  sampled m timed_out g =
      (ok [], warn_once (concat "nvidia-smi timed out after " (concat m.timeout_text "s")) g)
  sampled m (failed_to_run text) g =
      (ok [], warn_once (concat "nvidia-smi sampling failed: " text) g)
  sampled m (run_raised e) g = (err e, g)

  unfoldable pub sample : Machine → Sampler → Result (List GpuTelemetry) × Sampler
  unfolding resolve_binary sampled warn_once
  sample m g = elim (resolve_binary m g) [
    | none ↦ (ok [], warn_once "nvidia-smi was not found on this machine" g)
    | some binary ↦ sampled m (m.run binary) g
  ]
