-- ===== src/Tests.antt =====
-- The theorems at concrete inputs, and runs of the definitions.
mod Bank
mod Types
mod Memory
mod Execute
mod Projection
mod Reader
mod Snapshots
mod FileStore
mod Transactions
mod Stores
mod SavedStates
