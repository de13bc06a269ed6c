-- ===== src/Flow.antt =====
-- The tasks that run other tasks (pkg/coordinator/tasks/run_*).
pub mod Sequential
pub mod Limits
pub mod Options
pub mod Chain
pub mod Background
mod Examples
