-- ===== src/Orchestrator.antt =====
-- internal/orchestrator: the project locks, the queue of operations and their execution.
pub mod Lock
pub mod Exclusion
pub mod Heap
pub mod Queue
pub mod Record
pub mod Executor
