-- ===== src/Execute.antt =====
-- The crate `eventcore`: executing a command (eventcore/src/lib.rs, execute_pipeline.rs and
-- effects.rs) against any store that keeps the contract of the trait `EventStore`.
pub mod Interface
pub mod Retry
pub mod Pipeline
pub mod Shell
pub mod Atomic
pub mod ReadPhase
pub mod Commit
pub mod Steps
pub mod Serializable
pub mod OverMemory
pub mod Flow
pub mod Replay
pub mod Snapshots
pub mod Scheduling
pub mod Trail
pub mod ReplayPhase
pub mod Discovery
pub mod Halting
pub mod Termination
