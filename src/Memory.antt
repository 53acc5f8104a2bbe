-- ===== src/Memory.antt =====
-- eventcore-memory/src/lib.rs: the in-memory store. `Store` has the state and the operations of
-- the trait `EventStore`, `Reader` those of `EventReader`, and `Coordination` the checkpoints and
-- the leadership locks.
pub mod Store
pub mod Append
pub mod Invariant
pub mod Reads
pub mod Coordination
pub mod Reader
pub mod Selection
pub mod Paging
