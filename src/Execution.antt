-- ===== src/Execution.antt =====
-- execution/: the engine. `Errors`, `Exec` and `Types` are the vocabulary; `Merge`, `Failure`,
-- `Compensate`, `Join`, `Parallel`, `Suspend`, `Engine` and `Resume` follow the source function by
-- function, and the modules below each of them hold what is proved of it.
pub mod Errors
pub mod Texts
pub mod Exec
pub mod Types
pub mod Failure
pub mod Compensate
pub mod Join
pub mod Parallel
pub mod Suspend
pub mod Contract
pub mod MemoryStore
pub mod Engine
pub mod Resume
