-- ===== src/FileStore.antt =====
-- The crate eventcore-fs: an event store whose files two clones of a repository can merge.
pub mod Format
pub mod Topology
pub mod Ingestion
pub mod Index
pub mod Merge
pub mod Store
