-- ===== src/FileStore/Store.antt =====
-- `FileEventStore` of eventcore-fs/src/lib.rs: its state and how it appends. The append lock lets one
-- append run at a time, so an append is a function of the store that it finds.
pub mod Reads
pub mod Mirror
pub mod Reopen
pub mod Cases
pub mod Append
pub mod Reconcile
pub mod Snapshots
use Prim.Native.String
use eventcore.Prelude.{
  ℕ, String, List, [], ◌∷◌, ◌++◌, Bool, true, false, Option, none, some, Result, ok, err, ◌>>=◌,
  map_err, eqb, if◌then◌else◌,
}
use eventcore.Prelude.HashMap.{HashMap}
use eventcore.Prelude.Sorting.{sort_by}
use eventcore.Prelude.UuidMap
use eventcore.Prelude.UuidMap.{Uuid, UuidMap}
use eventcore.Types.Error.{
  StreamVersion, EventStoreError, store_failure, append_events as appending, version_conflict,
}
use eventcore.Types.Writes.{StreamWriteEntry, StreamWrites}
use eventcore.FileStore.Format.{
  TransactionHeader, EventEnvelope, Codec, format_version_of_file, serialize_transaction,
}
use eventcore.FileStore.Ingestion.{LogCodec, persist}
use eventcore.FileStore.Index.{
  IndexedEvent, Index, push_stream, stream_head, ingest_appended, build_envelopes,
}

-- `poisoned` is the state of the `RwLock` around the index. `files` are the transaction files, by the
-- identifier in their name, and `log_text` is the file of the ingestion log.
pub record FileEventStore (Value : Type 0) : Type 0 where
  pub replica_id : Uuid
  pub index : Index Value
  pub poisoned : Bool
  pub files : UuidMap String
  pub log_text : String

-- What the clock, the file system and `Uuid::now_v7` give to one append. A transaction file appears
-- whole by a rename, or not at all.
pub record Surroundings : Type 0 where
  pub transaction_id : Uuid
  pub event_ids : ℕ → Uuid
  pub created_at : String
  pub file_written : Result (Unit {0}) String
  pub log_opened : Result (Unit {0}) String
  pub log_written : Result (Unit {0}) String
  pub log_partial : String

-- serde_json at its own values: `from_str`, and the empty object
pub record Json (Value : Type 0) : Type 0 where
  pub parse : String → Result Value String
  pub empty_object : Value

-- `collect` into a `BTreeMap`, of a map without repeated keys
abbrev pub to_btree_map : HashMap StreamVersion → HashMap StreamVersion
to_btree_map m = sort_by (λ p q. String.compare p.0 q.0) m

module _ {Value : Type 0} where
  -- the loop over the expected versions
  unfoldable pub first_conflict : Index Value → HashMap StreamVersion → Option EventStoreError
  first_conflict index [] = none
  first_conflict index ((stream_id, expected) ∷ rest) =
      if eqb (stream_head index stream_id) expected
      then first_conflict index rest
      else some (version_conflict stream_id expected (stream_head index stream_id))

  -- what forbids an append: the index that cannot be locked, or the first version that differs
  unfoldable pub refusal : FileEventStore Value → HashMap StreamVersion → Option EventStoreError
  unfolding first_conflict
  refusal store expected =
      if store.poisoned then some (store_failure appending) else first_conflict store.index expected

  -- the loop over the new events, behind the write lock
  unfoldable pub ingest_all :
      List (IndexedEvent Value) → Index Value → List (Uuid × ℕ) × Index Value
  unfolding ingest_appended push_stream
  ingest_all [] index = ([], index)
  ingest_all (indexed ∷ rest) index =
      let pushed = record index { streams = push_stream indexed index.streams } in
      let ((position, entry), next) = ingest_appended indexed pushed in
      let (entries, last) = ingest_all rest next in (entry ∷ entries, last)

  -- What the write lock protects, but for the persisting of the log.
  unfoldable pub commit :
      TransactionHeader
      → List (IndexedEvent Value)
      → List Uuid
      → Index Value
      → List (Uuid × ℕ) × Index Value
  unfolding ingest_all
  commit header new_events tips index =
      let headers = UuidMap.insert header.transaction_id header index.headers in
      let (entries, next) = ingest_all new_events (record index { headers = headers }) in
      (entries, record next { tips = tips })

module _ {Value Any : Type 0} (json : Json Value) where
  unfoldable pub parse_entries :
      List (StreamWriteEntry Any) → Result (List (String × (String × Value))) EventStoreError
  parse_entries [] = ok []
  parse_entries (entry ∷ rest) =
      map_err (λ _. store_failure appending) (json.parse entry.event_data) >>= λ event_data.
      parse_entries rest >>= λ items. ok ((entry.stream_id, (entry.event_type, event_data)) ∷ items)

module _ {Value : Type 0} (json : Json Value) (io : Surroundings) where
  abbrev pub header_for :
      FileEventStore Value → (parents : List Uuid) → HashMap StreamVersion → TransactionHeader
  header_for store parents bases = record {
    format_version = format_version_of_file;
    transaction_id = io.transaction_id;
    replica_id = store.replica_id;
    parent_transaction_ids = parents;
    created_at = io.created_at;
    stream_bases = bases;
    content_hash = none;
  }

  abbrev pub envelopes_for :
      FileEventStore Value
      → List (String × (String × Value))
      → List (EventEnvelope Value) × List (IndexedEvent Value)
  envelopes_for store items = build_envelopes io.event_ids json.empty_object store.index items

module _ {Value : Type 0} (json : Json Value) (codec : Codec Value) (log_codec : LogCodec)
    (log_path : String) (io : Surroundings) where
  abbrev Outcome : Type 0
  Outcome = Result (Unit {0}) EventStoreError × FileEventStore Value

  -- what follows the writing of the file, which returned the first argument
  unfoldable pub after_file :
      Result (Unit {0}) String
      → TransactionHeader
      → List (IndexedEvent Value)
      → (body : String) → FileEventStore Value
      → Outcome
  unfolding commit
  after_file (err _) header new_events body store = (err (store_failure appending), store)
  after_file (ok _) header new_events body store =
      let (entries, index) = commit header new_events (header.transaction_id ∷ []) store.index in
      let (persisted, log_text) =
        persist log_codec log_path io.log_opened io.log_written io.log_partial entries
          store.log_text in
      (
        map_err (λ _. store_failure appending) persisted,
        record store {
          index = index;
          files = UuidMap.insert header.transaction_id body store.files;
          log_text = log_text;
        },
      )

  -- what follows the serializing of the transaction
  unfoldable pub after_body :
      Result String EventStoreError
      → TransactionHeader
      → List (IndexedEvent Value)
      → FileEventStore Value
      → Outcome
  unfolding after_file
  after_body (err error) header new_events store = (err error, store)
  after_body (ok body) header new_events store =
      after_file io.file_written header new_events body store

  -- the part behind the checks of the versions and the parsing of the events
  unfoldable pub write_transaction :
      TransactionHeader
      → List (EventEnvelope Value) × List (IndexedEvent Value)
      → FileEventStore Value
      → Outcome
  unfolding after_body
  write_transaction header (envelopes, new_events) store =
      after_body (serialize_transaction codec header envelopes) header new_events store

  -- what follows the parsing of the events
  unfoldable pub after_parsing :
      Result (List (String × (String × Value))) EventStoreError
      → HashMap StreamVersion
      → FileEventStore Value
      → Outcome
  unfolding write_transaction
  after_parsing (err error) expected store = (err error, store)
  after_parsing (ok items) expected store =
      write_transaction (header_for json io store store.index.tips (to_btree_map expected))
        (envelopes_for json io store items) store

  unfoldable pub after_checks :
      {Any : Type 0} → Option EventStoreError → StreamWrites Any → FileEventStore Value → Outcome
  unfolding after_parsing parse_entries
  after_checks (some refused) writes store = (err refused, store)
  after_checks none writes store =
      after_parsing (parse_entries json writes.entries) writes.expected_versions store

  unfoldable pub append_events : {Any : Type 0} → StreamWrites Any → FileEventStore Value → Outcome
  unfolding after_checks refusal
  append_events writes store = elim writes.entries [
    | [] ↦ (ok tt, store)
    | _ ∷ _ ↦ after_checks (refusal store writes.expected_versions) writes store
  ]
