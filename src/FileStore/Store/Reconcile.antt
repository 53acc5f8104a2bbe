-- ===== src/FileStore/Store/Reconcile.antt =====
-- `reconcile` of eventcore-fs/src/lib.rs: each fork is put to the application's resolver, and a
-- resolution is written as a transaction whose parents are the heads of the fork.
use Prim.Native.String
use eventcore.Prelude.{
  ℕ, ◌+◌, String, List, [], ◌∷◌, ◌++◌, none, some, Result, ok, err, ◌>>=◌, map_err, ◌==◌,
  if◌then◌else◌,
}
use eventcore.Prelude.HashMap
use eventcore.Prelude.HashMap.{HashMap, contains_key}
use eventcore.Prelude.UuidMap
use eventcore.Prelude.UuidMap.{Uuid, lookup}
use eventcore.Types.Error.{StreamVersion}
use eventcore.FileStore.Format.{
  TransactionHeader, EventEnvelope, Codec, FsEventStoreError, init_failed, corrupted,
  parse_transaction, serialize_transaction,
}
use eventcore.FileStore.Topology.{compute_tips}
use eventcore.FileStore.Ingestion.{LogCodec, persist}
use eventcore.FileStore.Index.{IndexedEvent, Index, stream_head}
use eventcore.FileStore.Merge.{Fork, detect_forks_in}
use eventcore.FileStore.Store.{
  FileEventStore, Surroundings, Json, to_btree_map, commit, header_for, envelopes_for,
}
use eventcore.FileStore.Store.Reads.{lock_index}

pub record BranchView (E : Type 0) : Type 0 where
  pub transaction_id : Uuid
  pub events : List E

pub record ForkContext (E : Type 0) : Type 0 where
  pub stream_id : String
  pub base_version : StreamVersion
  pub branches : List (BranchView E)

pub data ResolutionOutcome (E : Type 0) : Type 0 where
  resolve : List E → ResolutionOutcome E
  unresolvable : String → ResolutionOutcome E

pub record ReconcileReport : Type 0 where
  pub resolved : ℕ
  pub unresolved : List String

-- serde_json at the event type of the resolver, with the parts of the trait `Event`
pub record MergeEvent (Value E : Type 0) : Type 0 where
  pub from_value : Value → Result E String
  pub to_value : E → Result Value String
  pub stream_id : E → String
  pub event_type_name : String

-- The paths of `Roots`, the text of an error, which thiserror derives, and that of a file which is not
-- there.
pub record Texts : Type 0 where
  pub root : String
  pub log_path : String
  pub event_path : Uuid → String
  pub display : FsEventStoreError → String
  pub no_such_file : String

module _ {Value E : Type 0} (ev : MergeEvent Value E) (json : Json Value) (codec : Codec Value)
    (log_codec : LogCodec) (texts : Texts) where
  -- what reading a transaction file returns
  abbrev read_file : FileEventStore Value → Uuid → Result String String
  read_file store id = elim (lookup id store.files) [
    | none ↦ err texts.no_such_file
    | some text ↦ ok text
  ]

  -- the events of one branch that belong to the forked stream
  unfoldable pub branch_events :
      (path stream_id : String) → List (EventEnvelope Value) → Result (List E) FsEventStoreError
  branch_events path stream_id [] = ok []
  branch_events path stream_id (envelope ∷ rest) =
      let others = branch_events path stream_id rest in
      let decoded =
        map_err
          (λ error.
            corrupted path (String.◌++◌ "branch event does not match resolver type: " error))
          (ev.from_value envelope.event_data)
        >>= λ event. others >>= λ events. ok (event ∷ events) in
      if envelope.stream_id == stream_id then decoded else others

  unfoldable pub branches_of :
      FileEventStore Value → String → List Uuid → Result (List (BranchView E)) FsEventStoreError
  unfolding branch_events
  branches_of store stream_id [] = ok []
  branches_of store stream_id (id ∷ ids) =
      parse_transaction codec (texts.event_path id) (read_file store id) >>= λ (header, envelopes).
      branch_events (texts.event_path id) stream_id envelopes >>= λ events.
      branches_of store stream_id ids >>= λ branches.
      ok (record { transaction_id = id; events = events } ∷ branches)

  unfoldable pub build_fork_context :
      FileEventStore Value → Fork → Result (ForkContext E) FsEventStoreError
  unfolding branches_of
  build_fork_context store fork = branches_of store fork.stream_id fork.transactions >>= λ branches.
      ok (record {
        stream_id = fork.stream_id;
        base_version = fork.base_version;
        branches = branches;
      })

  unfoldable pub resolution_items :
      List E → Result (List (String × (String × Value))) FsEventStoreError
  resolution_items [] = ok []
  resolution_items (event ∷ events) =
      map_err
        (λ error. corrupted texts.root (String.◌++◌ "failed to serialize resolution event: " error))
        (ev.to_value event)
      >>= λ event_data. resolution_items events >>= λ items.
          ok ((ev.stream_id event, (ev.event_type_name, event_data)) ∷ items)

  -- `entry(…).or_insert_with(…)` for each event
  unfoldable pub resolution_bases :
      Index Value → List (String × (String × Value)) → HashMap StreamVersion → HashMap StreamVersion
  resolution_bases index [] bases = bases
  resolution_bases index ((key, _) ∷ items) bases =
      resolution_bases index items
        (if contains_key key bases then bases else HashMap.insert key (stream_head index key) bases)

  -- the part behind the building of the transaction
  unfoldable pub write_resolution :
      Surroundings
      → TransactionHeader
      → List (EventEnvelope Value) × List (IndexedEvent Value)
      → FileEventStore Value
      → Result (Unit {0}) FsEventStoreError × FileEventStore Value
  write_resolution io header (envelopes, new_events) store =
      elim (serialize_transaction codec header envelopes) [
        | err _ ↦ (err (corrupted texts.root "failed to serialize merge transaction"), store)
        | ok body ↦ elim io.file_written [
          | err source ↦ (err (init_failed (texts.event_path header.transaction_id) source), store)
          | ok _ ↦
              let headers = UuidMap.insert header.transaction_id header store.index.headers in
              let (entries, index) = commit header new_events (compute_tips headers) store.index in
              let (persisted, log_text) =
                persist log_codec texts.log_path io.log_opened io.log_written io.log_partial entries
                  store.log_text in
              (
                map_err
                    (λ error.
                      corrupted texts.root
                        (String.◌++◌ "failed to persist ingestion log: " (texts.display error)))
                    persisted,
                record store {
                  index = index;
                  files = UuidMap.insert header.transaction_id body store.files;
                  log_text = log_text;
                },
              )
        ]
      ]

  unfoldable pub write_merge_transaction :
      Surroundings
      → Fork
      → List E
      → FileEventStore Value
      → Result (Unit {0}) FsEventStoreError × FileEventStore Value
  unfolding write_resolution resolution_items resolution_bases
  write_merge_transaction io fork events store = elim (resolution_items events) [
    | err error ↦ (err error, store)
    | ok items ↦ elim (lock_index texts.root store) [
      | err error ↦ (err error, store)
      | ok _ ↦
          write_resolution io
            (header_for json io store fork.transactions
              (to_btree_map (resolution_bases store.index items [])))
            (envelopes_for json io store items) store
    ]
  ]

  -- The loop over the forks; `ios i` surrounds the `i`-th merge.
  unfoldable pub reconcile_forks :
      (ForkContext E → ResolutionOutcome E)
      → (ℕ → Surroundings)
      → List Fork
      → ReconcileReport
      → FileEventStore Value
      → Result ReconcileReport FsEventStoreError × FileEventStore Value
  unfolding write_merge_transaction build_fork_context
  reconcile_forks resolver ios [] report store = (ok report, store)
  reconcile_forks resolver ios (fork ∷ forks) report store = elim (build_fork_context store fork) [
    | err error ↦ (err error, store)
    | ok context ↦ elim (resolver context) [
      | unresolvable reason ↦
          reconcile_forks resolver ios forks
            (record report { unresolved = report.unresolved ++ fork.stream_id ∷ [] }) store
      | resolve events ↦
          let (written, next) = write_merge_transaction (ios report.resolved) fork events store in
          elim written [
            | err error ↦ (err error, next)
            | ok _ ↦
                reconcile_forks resolver ios forks
                  (record report { resolved = report.resolved + 1 }) next
          ]
    ]
  ]

  unfoldable pub reconcile :
      (String → Result String String)
      → (ForkContext E → ResolutionOutcome E)
      → (ℕ → Surroundings)
      → FileEventStore Value
      → Result ReconcileReport FsEventStoreError × FileEventStore Value
  unfolding reconcile_forks
  reconcile try_new resolver ios store =
      elim (lock_index texts.root store >>= λ _. detect_forks_in try_new store.index.headers) [
        | err error ↦ (err error, store)
        | ok forks ↦
            reconcile_forks resolver ios forks (record { resolved = 0; unresolved = [] }) store
      ]
