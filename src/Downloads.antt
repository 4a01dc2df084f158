-- ===== src/Downloads.antt =====
-- Partition downloads, packages/db/src/partition-downloads.ts: requests for a bundle of partitions,
-- the processing run that a worker holds a lease on, and the artifact that it publishes.
pub mod Schema
pub mod Requests
pub mod Limits
pub mod Workers
pub mod Prepare
pub mod Access
pub mod Sweep
pub mod History
pub mod Transitions
pub mod Refinement
pub mod Evolution
pub mod Soundness
pub mod Keys
pub mod Quota
mod Tests
