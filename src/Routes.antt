-- ===== src/Routes.antt =====
-- routes.py: the HTTP surface of the pool. This file: what a route answers, and the table from the
-- errors of the service to status codes. The encoding as JSON, and the parsing of a body, are the
-- web framework's.
pub mod Requests
pub mod Manifests
pub mod Responses
pub mod Handlers
pub mod Raised
pub mod Authenticated
pub mod Answers
use outbound_gpu_worker_pool.Base.{ℕ, String, Option, none, some}
use outbound_gpu_worker_pool.Contracts.{
  Error, worker_auth_error, worker_identity_mismatch, worker_tenant_mismatch, profile_not_qualified,
  rate_limited, worker_revoked, worker_mismatch, worker_not_registered, job_not_found, stale_lease,
  completion_rejected, Value, str, dict, end, field,
}

-- A body with status 200, an empty 204, a refusal with its status and detail, a 422 of the request's
-- validation, or an error that no handler turned into a response: the framework answers it with 500.
pub data Answer (A : Type 0) : Type 0 where
  answered : A → Answer A
  no_content : Answer A
  refused : ℕ → Value → Answer A
  unprocessable : Answer A
  crashed : Error → Answer A

unfoldable pub status_of : {A : Type 0} → Answer A → ℕ
status_of (answered a) = 200
status_of no_content = 204
status_of (refused status detail) = status
status_of unprocessable = 422
status_of (crashed e) = 500

abbrev reason_detail : String → Value
reason_detail reason = dict (field "reason" (str reason) end)

-- `_mapped_errors`: none where it lets the exception through.
unfoldable pub mapped_error : Error → Option (ℕ × Value)
mapped_error (completion_rejected reason) = some (422, reason_detail reason)
mapped_error (worker_auth_error m) = some (401, str "worker credential rejected")
mapped_error (worker_identity_mismatch m) = some (401, str "worker credential rejected")
mapped_error (worker_revoked m) = some (403, str "worker is revoked")
mapped_error (rate_limited m) = some (429, str "worker rate limit")
mapped_error (worker_tenant_mismatch m) = some (409, str "worker tenant is fixed at enrollment")
mapped_error (worker_mismatch m) = some (409, str "worker registration conflict")
mapped_error (worker_not_registered m) = some (409, str "worker registration conflict")
mapped_error (job_not_found m) = some (404, str "pool job not found")
mapped_error (stale_lease m) = some (409, str "job lease is stale")
mapped_error (profile_not_qualified m) = some (422, reason_detail "profile_not_qualified")
mapped_error _ = none

unfoldable pub refusal : {A : Type 0} → Error → Answer A
unfolding mapped_error
refusal e = elim (mapped_error e) [
  | none ↦ crashed e
  | some (status, detail) ↦ refused status detail
]
