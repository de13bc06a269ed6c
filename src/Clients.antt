-- ===== src/Clients.antt =====
-- The execution clients: pkg/coordinator/clients/execution.
pub mod Dispatcher
pub mod BlockCache
pub mod Execution
pub mod Pool
mod Examples
