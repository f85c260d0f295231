-- ===== src/Contracts/Lease.antt =====
-- The asset and lease types of contracts.py.
use outbound_gpu_worker_pool.Base.{ℕ, String, Option, List, ℤ}
use outbound_gpu_worker_pool.Contracts.Values.{Fields}

pub record AssetDescriptor : Type 0 where
  pub key : String
  pub size : ℕ
  pub content_type : Option String

pub record CapabilitySchema : Type 0 where
  pub capability_id : String
  pub contract_version : ℤ
  pub input_schema : Fields

pub record AssetGrant : Type 0 where
  pub key : String
  pub url : String
  pub method : String
  pub expires_at : ℕ
  pub content_type : Option String

pub record LeaseGrant : Type 0 where
  pub job_id : String
  pub claim_token : String
  pub lease_until : ℕ
  pub execution_deadline_seconds : ℤ
  pub capability_id : String
  pub contract_version : ℤ
  pub request_digest : String
  pub idempotency_key : String
  pub input_keys : List String
  pub output_key : String
  pub payload : Fields
  pub input_grants : List AssetGrant
  pub output_grant : AssetGrant
  pub tenant_id : Option String

pub record OutputManifest : Type 0 where
  pub output_key : String
  pub content_type : String
  pub byte_length : ℕ
  pub sha256 : String
  pub idempotency_key : String
  pub request_digest : String
  pub plugin_id : String
  pub plugin_version : String
  pub model_id : String
  pub model_version : String
  pub publication_mode : String
  pub seed : Option ℤ
  pub diagnostics : Fields
