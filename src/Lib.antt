-- ===== src/Lib.antt =====
-- A model of the outbound GPU worker pool, src/outbound_gpu_worker_pool/: a coordinator keeps jobs
-- that hosts submit, and leases them to workers that call in from outside.
--
-- The parts, and the files that model them:
--   Base          lists, texts, integers and Python's dict, with the lemmas that the parts share
--   Contracts     contracts.py: the limits, errors, enumerations and records, the values of a JSON
--                 payload with Python's `==`, and `JobRequirements.as_payload` and `from_payload`
--   Stdlib        what is taken from Python's library as a black box
--   Json, Regex   `json.dumps` with the canonical options, and `re` as matching by derivatives
--   Validation    validation.py
--   JobStore      memory.py, `MemoryJobStore`: JobStore (submit, get, list_for_tenant, cancel),
--                 JobStore.Leasing (lease), JobStore.Settling (heartbeat, complete, fail, release,
--                 expire_exhausted, queue_depth)
--   Registry      memory.py, `MemoryWorkerRegistry`
--   Audit         memory.py, `MemoryAuditLog`
--   Assets        memory.py, `MemoryAssetStore`, `MemoryAssetTransfer`, `MemoryWorkerAuthenticator`
--   RateLimiter   service.py, `RateLimiter`
--   Enrollment    enrollment.py
--   Auth          auth.py, the static tokens and `worker_id_from_account`
--   Service       service.py, `WorkerPoolService` over the stores above: Service (the state and its
--                 actions), Service.Qualification (`_unqualified_reason`, `_pinned_recipe`),
--                 Service.Admission (`_approved_enrollment`), Service.Authentication
--                 (authenticate), Service.Workers (enroll_worker, register_heartbeat,
--                 set_worker_status), Service.Leases (lease), Service.Verification
--                 (`_verify_output`), Service.Jobs (job_heartbeat, complete, fail, release),
--                 Service.Views (submit, get, cancel and the views)
--   Plugins       plugins.py: what a plugin is (Plugins) and the deterministic one (Plugins.Echo)
--   Routes        routes.py: Routes (answers and the table of errors), Routes.Requests and
--                 Routes.Manifests (the request bodies with their tests), Routes.Responses, and
--                 Routes.Handlers (the routes over the service)
--   Sampler       gpu_sampler.py
--   Agent         agent.py, `WorkerAgent`: Agent (what it is built with, and its state), Agent.Calls
--                 (heartbeat, `_reject`, `_fail`, `_release`), Agent.Grants (`_lease_grant`), Agent.Inputs
--                 (`HttpAssetTransfer`, `_download_inputs`, `_digest_file`), Agent.Publishing (`_publish`),
--                 Agent.Jobs (`_job_heartbeats`, `_serve`), Agent.Loop (run_once, run_forever)
--   EngineRecipes engine_recipes.py: a recipe with its description, and the declared one
--                 (EngineRecipes.Mesh)
--   MachineProfiles  machine_profiles.py: a profile, whether it is usable, its version
--                 (MachineProfiles), `parse_profiles` (MachineProfiles.Parsing), the runtime versions
--                 and what a pinned recipe attests (MachineProfiles.Versions), the declared profiles
--                 (MachineProfiles.Packaged), `_unqualified` of service.py (MachineProfiles.Refused)
--   Tests         samples, and the theorems at concrete inputs
-- A child module that is not named here holds proofs, and is named for what they show.
--
-- How the code is modelled:
--   State is passed on: a method of a store takes the store and returns its result and the new
--   store. A service method is an action on the whole pool, with a result or an exception; what it
--   wrote before it raised stays written. Calls run one after another.
--   Time is a number of microseconds. A store's method gets one reading of the clock; a service
--   method reads a clock whose n-th reading is an argument of the model, and so is the n-th claim
--   token that `uuid4` gives. No property assumes that the clock goes forward, but the one on the
--   limiter's calls.
--   A dict is its entries in insertion order. A payload is a tree, so no container in it is met
--   twice. A finite float is an integer multiple of 2^-1074, and a zero has no sign. Priority,
--   attempt budget, deadline, contract version and the needed memory are integers of either sign,
--   since hosts give them; other counts are natural numbers.
--   The limiter counts tokens in units of 1/60,000,000, where the source computes in floats.
--   The stack walk over a payload runs on fuel, the number of values in it: a round takes one value
--   off the stack, so this is enough. The digits of an integer n run on n + 1 rounds, each of which
--   divides by ten. Every other loop is recursion on its data.
--   The coordinator, the object store, the plugins, the machine and the stop event are arguments of
--   the agent: what the n-th request, the n-th look at the event and a download of a URL give. The
--   agent's requests are the bodies of Routes, its answers a status and a body. The rounds of a
--   job's heartbeat task stand between the download and the end of the execution, and after the
--   request that settles the job, while its answer is awaited; how many there are is an argument,
--   and a round that is cut short counts as a whole one. The loop of run_forever runs on fuel, and
--   Agent.Ending says how much is enough; the loop that digests a file runs on as many rounds as
--   the file has bytes.
--   A route authenticates, tests its body, and acts; an exception that the table of errors does not
--   have leaves the handler.
--   sha256, the decimal form of a float, `str` of a value, `int` and `fromisoformat` of a text,
--   `lower` and `strip` are arguments, with no law assumed, but where a property says so. So are the
--   authenticator of the service, the templates that the package holds, how a response is written as
--   JSON, and what the service asks machine_profiles.py; the table of profiles is an argument of its
--   functions.
--
-- What the properties on histories assume: each submission brings a job id that is new, or that of
-- the job with its own idempotency key. `MemoryJobStore.submit` does not check this: with a new key
-- and a known id it replaces the job.
--
-- Not modelled: postgres.py and the migrations (statements that a database runs), agent_main.py,
-- coordinator_main.py and coordinator.py (configuration and wiring), the ComfyUI and engine plugins
-- with their templates, in machine_profiles.py what calls ComfyUI (inspect_runtime, the features,
-- ProfileComfyPlugin, prepare_environment), assets/gcs.py (calls of the storage client), and the Google
-- verifier of auth.py. In the agent, logging, and the cancellation of the agent's own task.
pub mod Base
pub mod Contracts
pub mod Stdlib
pub mod Json
pub mod Regex
pub mod Validation
pub mod JobStore
pub mod Registry
pub mod Audit
pub mod Assets
pub mod RateLimiter
pub mod Enrollment
pub mod Auth
pub mod Service
pub mod Tests
pub mod Plugins
pub mod Routes
pub mod Sampler
pub mod Agent
pub mod EngineRecipes
pub mod MachineProfiles
