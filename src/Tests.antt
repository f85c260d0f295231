-- ===== src/Tests.antt =====
-- Runs of the model at concrete inputs: where the hypotheses of the theorems hold.
pub mod Samples
pub mod Submissions
pub mod Stores
pub mod Pools
pub mod Services
pub mod Requests
pub mod Agents
pub mod Completions
pub mod Profiles
