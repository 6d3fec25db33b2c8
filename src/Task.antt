-- ===== src/Task.antt =====
-- Tasks, of pkg/task beside catchup.go's replay.
pub mod Sleep
pub mod Lifecycle
pub mod Dispatch
pub mod Executions
