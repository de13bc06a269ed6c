-- ===== src/Runner.antt =====
-- Test runs: pkg/coordinator/test/test.go and the queue of pkg/coordinator/testrunner.go.
pub mod TestRun
pub mod Queue
mod Examples
