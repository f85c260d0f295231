-- ===== src/Contracts.antt =====
-- contracts.py: the typed values that the host, the coordinator and the workers exchange.
mod Errors
mod Limits
pub mod Values
pub mod Requirements
mod Job
mod Worker
mod Lease
pub use Errors.*
pub use Limits.*
unfoldable pub use Values.*
unfoldable pub use Requirements.*
pub use Job.*
pub use Worker.*
pub use Lease.*
