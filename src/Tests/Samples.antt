-- ===== src/Tests/Samples.antt =====
-- A request, a worker's lease call, and stores with one job in them.
use outbound_gpu_worker_pool.Base.{
  ℕ, ◌+◌, ◌-◌, ◌*◌, String, ◌&&◌, Option, none, some, List, [], ◌∷◌, leb, if◌then◌else◌, codes, len,
  is_empty, ℤ, pos,
}
use outbound_gpu_worker_pool.Contracts.{int, end, field, JobRequirements, JobSubmission, JobRecord}
use outbound_gpu_worker_pool.Stdlib.{Stdlib}
use outbound_gpu_worker_pool.JobStore.{new_record, cancelled_record, JobStore}
use outbound_gpu_worker_pool.JobStore.Leasing.{LeaseCall}
use outbound_gpu_worker_pool.JobStore.Settling.{Completion}
use outbound_gpu_worker_pool.JobStore.Evolution.{Call, cancels, leases, beats, completes, expires}

-- The value of a text of decimal digits.
abbrev digits : ℕ → List ℕ → Option ℤ
digits n [] = some (pos n)
digits n (c ∷ cs) =
    let rest = digits (n * 10 + (c - 48)) cs in if leb 48 c && leb c 57 then rest else none

abbrev pub digits_value : String → Option ℤ
digits_value s = if is_empty s then none else digits 0 (codes s)

abbrev pub python : Stdlib
python = record {
  sha256_hex = λ b. "digest";
  float_repr = λ n. b'0' ∷ [];
  render = λ v. "value";
  lower = λ s. s;
  strip = λ s. s;
  int_of = digits_value;
  datetime_of = λ s. some (len s);
}

abbrev pub any_worker : JobRequirements
any_worker = record {
  min_vram_mb = some (pos 8000);
  gpu_models = [];
  labels = "linux" ∷ [];
  worker_ids = [];
  runtime_versions = ("cuda", "12.4") ∷ [];
}

abbrev pub upscale : JobSubmission
upscale = record {
  job_id = "job-1";
  idempotency_key = "key-1";
  capability_id = "image.upscale.v1";
  input_keys = "in/a.png" ∷ [];
  output_key = "out/a.png";
  contract_version = pos 1;
  payload = field "factor" (int (pos 2)) end;
  tenant_id = some "acme";
  requirements = any_worker;
  priority = pos 10;
  attempt_budget = pos 2;
  execution_deadline_seconds = pos 600;
}

abbrev pub second : JobSubmission
second = record upscale { job_id = "job-2"; idempotency_key = "key-2"; priority = pos 5 }

abbrev pub worker : LeaseCall
worker = record {
  worker_id = "worker-1";
  capability_ids = "image.upscale.v1" ∷ [];
  lease_seconds = 60;
  tenant_id = some "acme";
  vram_mb = some 24000;
  gpu_model = none;
  labels = "linux" ∷ "cuda" ∷ [];
  runtime_versions = ("cuda", "12.4") ∷ [];
}

abbrev pub output : Completion
output = record {
  content_type = "image/png";
  sha256 = "0f";
  byte_length = 2048;
  execution_metadata = end;
}

abbrev pub no_store : JobStore
no_store = record { records = [] }

unfoldable pub waiting : JobRecord
unfolding new_record
waiting = new_record upscale "digest" 1000

unfoldable pub cancelled_job : JobRecord
unfolding new_record cancelled_record
cancelled_job = cancelled_record 2000 (new_record upscale "digest" 1000)

unfoldable pub two_waiting : JobStore
unfolding waiting new_record
two_waiting = record {
  records = ("job-1", waiting) ∷ ("job-2", new_record second "digest" 1500) ∷ [];
}

unfoldable pub one_waiting : JobStore
unfolding waiting
one_waiting = record { records = ("job-1", waiting) ∷ [] }

unfoldable pub one_cancelled : JobStore
unfolding cancelled_job
one_cancelled = record { records = ("job-1", cancelled_job) ∷ [] }

-- A job is leased, beats once and is completed, while another worker asks and a client cancels.
unfoldable pub history : List (Call × ℕ)
history =
    (leases worker "token-1", 2000)
    ∷ (beats "job-1" "token-1" 60 (some 50), 3000)
    ∷ (leases worker "token-2", 3500)
    ∷ (completes "job-1" "token-1" output, 4000)
    ∷ (cancels "job-1", 5000)
    ∷ (expires, 6000)
    ∷ []
