-- ===== src/Stdlib.antt =====
-- What the source takes from Python's library as black boxes: an argument of the model, over which
-- every theorem is stated. No law of them is assumed.
use outbound_gpu_worker_pool.Base.{ℕ, String, Option, List, ℤ}
use outbound_gpu_worker_pool.Contracts.{Value}

pub record Stdlib : Type 0 where
  -- `hashlib.sha256(b).hexdigest()`
  pub sha256_hex : List ℕ → String
  -- `repr(f)` of a finite float: its shortest decimal form, in ASCII
  pub float_repr : ℤ → List ℕ
  -- `str(v)` of a value that is no text
  pub render : Value → String
  -- `s.lower()` and `s.strip()`
  pub lower : String → String
  pub strip : String → String
  -- `int(s)` of a text: none where it raises a `ValueError`
  pub int_of : String → Option ℤ
  -- `datetime.fromisoformat(s)`: none where it raises a `ValueError`
  pub datetime_of : String → Option ℕ
