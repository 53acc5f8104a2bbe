-- ===== src/Memory/Store.antt =====
-- The state of `InMemoryEventStore` and its implementation of the trait `EventStore`
-- (eventcore-memory/src/lib.rs). A method returns its result and the store it leaves.
use Prim.Native.String
use eventcore.Prelude.{
  ℕ, suc, String, List, [], ◌∷◌, ◌++◌, map, drop, Bool, true, false, Option, none, some, Result, ok,
  err, eqb, if◌then◌else◌,
}
use eventcore.Prelude.HashMap
use eventcore.Prelude.HashMap.{HashMap, lookup}
use eventcore.Types.Error.{
  StreamId, StreamVersion, increment, read_stream, append_events, EventStoreError,
  deserialization_failed, store_failure, version_conflict,
}
use eventcore.Types.Event.{Event}
use eventcore.Types.Writes.{StreamWriteEntry, StreamWrites}
use eventcore.Types.Snapshot.{CommandStateSnapshot, covers}
use eventcore.Types.Query.{StreamPosition}

pub record GlobalLogEntry : Type 0 where
  pub event_id : StreamPosition
  pub stream_id : StreamId
  pub event_type : String
  pub event_data : String

-- The lock table that guards share with the store. `poisoned` is the state of its `RwLock`.
pub record LockTable : Type 0 where
  pub held : HashMap (Unit {0})
  pub poisoned : Bool

pub record StoreData (Any Value : Type 0) : Type 0 where
  pub streams : HashMap (List Any × StreamVersion)
  pub global_log : List GlobalLogEntry
  pub checkpoints : HashMap StreamPosition
  pub command_state_snapshots : HashMap (CommandStateSnapshot Value)
  pub locks : LockTable

-- `poisoned` is the state of the mutex: a thread has panicked while it held the lock.
pub record InMemoryEventStore (Any Value : Type 0) : Type 0 where
  pub content : StoreData Any Value
  pub open content use *
  pub poisoned : Bool

module _ {Value : Type 0} where
  -- The stored snapshot stays if the new one lacks a version that it has.
  unfoldable pub kept_snapshot :
      Option (CommandStateSnapshot Value) → CommandStateSnapshot Value → Bool
  kept_snapshot none snapshot = false
  kept_snapshot (some current) snapshot = if covers snapshot current then false else true

module _ {Any Value : Type 0} where
  -- `InMemoryEventStore::new`
  abbrev pub new : InMemoryEventStore Any Value
  new = record {
    content = record {
      streams = [];
      global_log = [];
      checkpoints = [];
      command_state_snapshots = [];
      locks = record { held = []; poisoned = false };
    };
    poisoned = false;
  }

  -- The events and the version of a stream; a stream that was never written has neither.
  abbrev pub events_of : StoreData Any Value → StreamId → List Any
  events_of d k = elim (lookup k d.streams) [ none ↦ [] | some stream ↦ stream.0 ]

  abbrev pub version_of : StoreData Any Value → StreamId → StreamVersion
  version_of d k = elim (lookup k d.streams) [ none ↦ 0 | some stream ↦ stream.1 ]

  -- The loop over the expected versions: the first stream that is at another version.
  unfoldable pub first_conflict :
      StoreData Any Value → HashMap StreamVersion → Option EventStoreError
  first_conflict d [] = none
  first_conflict d ((stream_id, expected) ∷ rest) =
      if eqb (version_of d stream_id) expected
      then first_conflict d rest
      else some (version_conflict stream_id expected (version_of d stream_id))

  -- The body of the loop over the entries, with the identifier that `Uuid::now_v7` gave.
  unfoldable pub write_entry :
      StreamPosition → StreamWriteEntry Any → StoreData Any Value → StoreData Any Value
  write_entry event_id entry d = record d {
    streams =
        HashMap.insert entry.stream_id
          (
            events_of d entry.stream_id ++ entry.event ∷ [],
            increment (version_of d entry.stream_id),
          )
          d.streams;
    global_log =
        d.global_log
        ++ record {
          event_id = event_id;
          stream_id = entry.stream_id;
          event_type = entry.event_type;
          event_data = entry.event_data;
        }
          ∷ [];
  }

  -- `now_v7 i` is the `i`-th identifier that the clock gives from the start of the call.
  unfoldable pub write_entries :
      (ℕ → StreamPosition)
      → ℕ
      → List (StreamWriteEntry Any)
      → StoreData Any Value
      → StoreData Any Value
  write_entries now_v7 i [] d = d
  write_entries now_v7 i (entry ∷ entries) d =
      write_entries now_v7 (suc i) entries (write_entry (now_v7 i) entry d)

  -- `append_events`, behind the lock
  unfoldable pub append_data :
      (ℕ → StreamPosition)
      → StreamWrites Any
      → StoreData Any Value
      → Result (Unit {0}) EventStoreError × StoreData Any Value
  append_data now_v7 writes d = elim (first_conflict d writes.expected_versions) [
    | some e ↦ (err e, d)
    | none ↦ (ok tt, write_entries now_v7 0 writes.entries d)
  ]

  unfoldable pub append :
      (ℕ → StreamPosition)
      → StreamWrites Any
      → InMemoryEventStore Any Value
      → Result (Unit {0}) EventStoreError × InMemoryEventStore Any Value
  append now_v7 writes store =
      if store.poisoned
      then (err (store_failure append_events), store)
      else (let (r, d) = append_data now_v7 writes store.content in
          (r, record store { content = d }))

  unfoldable pub load_command_state_snapshot :
      String
      → InMemoryEventStore Any Value
      → Result (Option (CommandStateSnapshot Value)) EventStoreError
  load_command_state_snapshot snapshot_id store =
      if store.poisoned
      then err (store_failure read_stream)
      else ok (lookup snapshot_id store.command_state_snapshots)

  unfoldable pub save_command_state_snapshot :
      String
      → CommandStateSnapshot Value
      → InMemoryEventStore Any Value
      → Result (Unit {0}) EventStoreError × InMemoryEventStore Any Value
  unfolding kept_snapshot
  save_command_state_snapshot snapshot_id snapshot store =
      if store.poisoned
      then (err (store_failure append_events), store)
      else if kept_snapshot (lookup snapshot_id store.command_state_snapshots) snapshot
      then (ok tt, store)
      else (
        ok tt,
        record store {
          content = record store.content {
            command_state_snapshots =
                HashMap.insert snapshot_id snapshot store.command_state_snapshots;
          };
        },
      )

module _ {Any E : Type 0} (ev : Event Any E) where
  -- the closure that `read_stream` maps over the boxed events
  unfoldable pub decode : StreamId → Any → Result E EventStoreError
  decode stream_id boxed = elim (ev.downcast_ref boxed) [
    | some event ↦ ok event
    | none ↦ err (
        deserialization_failed stream_id
          (String.◌++◌ "event could not be downcast to " ev.type_name))
  ]

module _ {Any Value E : Type 0} (ev : Event Any E) where
  -- A stream is the list of the items that it yields.
  unfoldable pub read :
      StreamId
      → InMemoryEventStore Any Value
      → Result (List (Result E EventStoreError)) EventStoreError
  read stream_id store =
      if store.poisoned
      then err (store_failure read_stream)
      else ok (map (decode ev stream_id) (events_of store.content stream_id))

  unfoldable pub read_after :
      StreamId
      → StreamVersion
      → InMemoryEventStore Any Value
      → Result (List (Result E EventStoreError)) EventStoreError
  read_after stream_id count store =
      if store.poisoned
      then err (store_failure read_stream)
      else ok (map (decode ev stream_id) (drop count (events_of store.content stream_id)))
