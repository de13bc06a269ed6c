-- ===== src/Checks.antt =====
-- The tasks that watch the chain, one module for each (tasks/check_*).
pub mod Attestations
pub mod Proposals
pub mod Ranges
pub mod SyncStatus
pub mod Examples
