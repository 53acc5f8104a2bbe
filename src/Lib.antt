-- ===== src/Lib.antt =====
-- A verification library for eventcore, the event-sourcing library of this repository.
--
-- A command reads the streams that it declares (and those that it discovers on the way), folds
-- their events into a state, decides on new events, and appends them with the versions that it
-- read, so that the store refuses them if a stream has moved. Around that loop stand the store
-- (`EventStore`), the retry policy, and the projections, which read the store's global log. The
-- modules:
--
--   * Prelude: numbers, `Result` with `?` as bind, lists, and Rust's `HashMap` and `HashSet` as
--     lists. The order of a list stands for the order of iteration, which Rust leaves open.
--   * Types (the crate eventcore-types): `Error` has identifiers, versions and errors (store.rs,
--     errors.rs), `Event` the trait `Event`, `Declarations` `StreamDeclarations` (command.rs),
--     `Writes` the builder `StreamWrites` (store.rs) with `build_stream_writes_from_events`
--     (eventcore/src/lib.rs), `Snapshot` snapshot.rs, and `Query` pages and filters
--     (projection.rs).
--   * Memory (eventcore-memory/src/lib.rs): `Store` has the state of `InMemoryEventStore` and its
--     `EventStore` methods, `Reader` its `EventReader` with a client that reads page after page,
--     and `Coordination` the checkpoints and the leadership locks. `Append`, `Invariant`, `Reads`,
--     `Selection` and `Paging` have the theorems.
--   * Execute (eventcore/src): `Interface` has the traits `CommandLogic` and `EventStore`, the
--     latter with its documented promises as the record `Contract`; `Retry` the policy and the
--     backoff of lib.rs; `Pipeline` the state machine of execute_pipeline.rs with the effects of
--     effects.rs; `Shell` the loop of `execute` (lib.rs), for commands without a snapshot id.
--     `Atomic` is the specification of an execution, and `Steps`, `ReadPhase`, `Commit` and
--     `Serializable` lead to the theorem. `Discovery` and `Halting` lead to `Termination`.
--     `OverMemory` makes the in-memory store an `EventStore`. `Flow`, `Replay` and `Snapshots` are
--     `execute_with_snapshot` (lib.rs), for commands with a snapshot id; `Scheduling`,
--     `Trail` and `ReplayPhase` compare its replay and its checkpoints with the read phase.
--   * Projection (eventcore/src): `Projector` has the traits `Projector`, `EventReader` and
--     `CheckpointStore` (eventcore-types/src/projection.rs) as records, `Config` the configuration
--     (projection.rs), `Pipeline` the state machine of projection_pipeline.rs, and `Shell` the loop
--     of `ProjectionRunner::run` and `run_projection` (projection.rs), on fuel, one unit for each
--     effect. `Reference` is the specification of a run in batch mode, and `Loop`, `Events` and
--     `Refinement` show that the machine meets it, with fuel that is enough.
--   * FileStore (eventcore-fs/src): `Format` has the transaction files of format.rs, `Topology`
--     the depths, the canonical order and the tips of index.rs, `Ingestion` the log of
--     ingestion.rs, `Index` the index of index.rs and its scan, `Merge` merge.rs, and `Store`
--     the store of lib.rs: its appends, in `Reads` its reads and its status, in `Reconcile` its
--     reconciliation, in `Snapshots` its saved states. `Mirror` says what it means that an
--     index agrees with the files. A UUID is a number; a `BTreeMap` is a list that stays
--     sorted.
--
-- How the program corresponds to the model. A method that changes a store returns the changed
-- store; a mutex or a lock that may be poisoned is a Boolean beside what it protects. An
-- `EventStore` works on a world that other processes change as well: each operation may find
-- other events than the one before it left. serde_json, `Any` and the type names of `std` are
-- fields of `Event`; `Uuid::now_v7` is a sequence of identifiers; the floating-point operations
-- of the jitter are the record `Float`, and the compiler of glob patterns is a function. `usize`
-- and `u32` wrap at 2 ^ 64 and 2 ^ 32. A panic is a result of its own. The loops of `execute`
-- and of the projections run on fuel, one unit for each effect, and `Execute/Termination` and
-- `Projection/Refinement` show that enough fuel exists. In the file store the search for an
-- ancestor has one unit for each parent that a header names and two more, which `Merge/Search`
-- shows to be enough, and the recursion of `transaction_depth` one for each transaction and one
-- more, which `Topology/Depth` shows to be enough without a cycle: with one, the code recurses
-- without end.
-- The append lock makes an append a function of the store that it finds; what a file operation
-- returns is given from outside, and a transaction file appears whole or not at all.
--
-- Not modelled: tracing; the PostgreSQL and SQLite stores, whose work is done by a database; of
-- the file store the opening of a directory, the Git metadata, the file locks and the identity
-- of a replica, which are work of the file system; the macros, which generate code; the model
-- checker; the validation of stream identifiers; the text of business errors beyond a message;
-- the testing crates, the examples, and the demo, stress and benchmark programs.
pub mod Prelude
pub mod Types
pub mod Memory
pub mod Execute
pub mod Projection
pub mod FileStore
mod Tests
