-- ===== src/Types.antt =====
-- The crate `eventcore-types`: the vocabulary that commands, stores and projections share.
pub mod Error
pub mod Event
pub mod Writes
pub mod Declarations
pub mod Snapshot
pub mod Query
