-- ===== src/Tests/Requests.antt =====
-- The theorems on whole histories of requests, from an empty pool.
use outbound_gpu_worker_pool.Base.{refl, inl, none, some, List, [], ◌∷◌, get}
use outbound_gpu_worker_pool.Contracts.{revoked}
use outbound_gpu_worker_pool.Service.Ownership.{finish}
use outbound_gpu_worker_pool.Service.History.{
  serve_all, serve_all-PoolIsValid, Request, to_submit, to_enroll, to_restate, to_authenticate,
  to_report, to_lease, to_work, PoolIsValid,
}
use outbound_gpu_worker_pool.Tests.Samples.{upscale}
use outbound_gpu_worker_pool.Tests.Stores.{no_store-StoreIsValid}
use outbound_gpu_worker_pool.Tests.Pools.{caller, report, settings, manifest, empty_pool}
use outbound_gpu_worker_pool.Tests.Services.{no_workers-RegistryIsValid}

abbrev requests : List Request
requests =
    to_submit upscale
    ∷ to_enroll "worker-1"
        (record { identity_subject = "static:worker-1"; tenant_id = some "acme" })
    ∷ to_authenticate (some "Bearer token") "10.0.0.1"
    ∷ to_report caller report
    ∷ to_lease caller ("image.upscale.v1" ∷ []) none
    ∷ to_work caller "job-1" "token-1" (finish manifest)
    ∷ to_restate "worker-1" revoked
    ∷ []

serve_all-PoolIsValid_example : PoolIsValid (serve_all settings requests empty_pool)
unfolding get
serve_all-PoolIsValid_example =
    serve_all-PoolIsValid settings requests empty_pool
      (inl refl, (tt, (tt, (tt, (tt, (tt, (tt, tt)))))))
      (record { jobs = no_store-StoreIsValid; registry = no_workers-RegistryIsValid })
