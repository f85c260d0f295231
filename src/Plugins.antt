-- ===== src/Plugins.antt =====
-- plugins.py: what a plugin takes and gives, as the agent and the coordinator use it. A workspace
-- is its files, by their path below it; a file is its bytes.
pub mod Echo
use outbound_gpu_worker_pool.Base.{
  ℕ, String, Bool, Option, none, some, List, [], ◌∷◌, ℤ, Dict, get, put,
}
use outbound_gpu_worker_pool.Contracts.{
  foreign_error, Result, ok, err, Fields, WorkerCapability, CapabilitySchema, LeaseGrant,
}

abbrev pub Files : Type 0
Files = Dict (List ℕ)

pub record CapabilityManifest : Type 0 where
  pub plugin_id : String
  pub plugin_version : String
  pub capabilities : List WorkerCapability
  pub schemas : List CapabilitySchema

pub record ValidatedRequest : Type 0 where
  pub capability_id : String
  pub contract_version : ℤ
  pub inputs : Fields
  pub seed : Option ℤ

-- `deadline` is a time in microseconds. The event that cancels is left out: the agent sets it once
-- the execution is over.
pub record ExecutionContext : Type 0 where
  pub job_id : String
  pub lease_id : String
  pub deadline : ℕ
  pub input_paths : Dict String

pub record PluginHealth : Type 0 where
  pub healthy : Bool
  pub detail : String

pub record PluginOutput : Type 0 where
  pub path : String
  pub content_type : String
  pub model_id : String
  pub model_version : String
  pub seed : Option ℤ
  pub diagnostics : Fields

-- What an execution did: its result, the workspace it leaves, and the percents that it reported.
pub record Execution : Type 0 where
  pub output : Result PluginOutput
  pub files : Files
  pub reports : List ℕ

-- `GpuExecutorPlugin`
pub record Plugin : Type 0 where
  pub capabilities : CapabilityManifest
  pub validate : LeaseGrant → Result ValidatedRequest
  pub execute : ExecutionContext → ValidatedRequest → Files → Execution
  pub cancel : String → Bool
  pub health : PluginHealth

abbrev add_schemas : List CapabilitySchema → Dict CapabilitySchema → Dict CapabilitySchema
add_schemas [] d = d
add_schemas (c ∷ cs) d = add_schemas cs (put c.capability_id c d)

abbrev add_plugins : List Plugin → Dict CapabilitySchema → Dict CapabilitySchema
add_plugins [] d = d
add_plugins (p ∷ ps) d = add_plugins ps (add_schemas p.capabilities.schemas d)

unfoldable pub capability_schemas_from_plugins : List Plugin → Dict CapabilitySchema
capability_schemas_from_plugins ps = add_plugins ps []

-- `path.read_bytes()`
unfoldable pub read_file : String → Files → Result (List ℕ)
read_file path files = elim (get path files) [
  | none ↦ err (foreign_error "FileNotFoundError")
  | some b ↦ ok b
]
