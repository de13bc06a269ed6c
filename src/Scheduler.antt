-- ===== src/Scheduler.antt =====
-- The task scheduler of pkg/coordinator/scheduler: task states, their execution and their order.
pub mod State
pub mod Database
pub mod Sync
pub mod Execution
pub mod Results
pub mod Lifecycle
pub mod Watch
pub mod Tasks
pub mod TaskOrder
pub mod Running
pub mod Order
pub mod Examples
