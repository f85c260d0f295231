-- ===== src/JobStore/Requests.antt =====
-- What no call changes of a job, and how its attempts grow.
use outbound_gpu_worker_pool.Base.{Option, none, some}
use outbound_gpu_worker_pool.Contracts.{JobRecord}
use outbound_gpu_worker_pool.Stdlib.{Stdlib}
use outbound_gpu_worker_pool.JobStore.{JobStore}
use outbound_gpu_worker_pool.JobStore.Lifecycle.{SameRequest}
use outbound_gpu_worker_pool.JobStore.Keyed.{Keyed}

abbrev pub Kept : JobRecord → Option JobRecord → Type 0
Kept r none = ⊥
Kept r (some s) = SameRequest r s
