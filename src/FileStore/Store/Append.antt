-- ===== src/FileStore/Store/Append.antt =====
-- What an append of eventcore-fs/src/lib.rs comes to: an error that changes nothing, or a store that is
-- found again when the files are opened.
use eventcore.Prelude.{ℕ, ◌≡◌, String, List, [], ◌∷◌, ◌++◌, some, Result, ok}
use eventcore.Prelude.HashMap.{HashMap}
use eventcore.Prelude.UuidMap
use eventcore.Prelude.UuidMap.{Uuid, UuidMap, lookup}
use eventcore.Types.Error.{EventStoreError, StreamVersion}
use eventcore.Types.Writes.{StreamWriteEntry, StreamWrites}
use eventcore.FileStore.Format.{TransactionHeader, EventEnvelope, Codec, serialize_transaction}
use eventcore.FileStore.Topology.Depth.{IsDag}
use eventcore.FileStore.Ingestion.{LogCodec, IngestionLog}
use eventcore.FileStore.Index.{Index, Transaction, stream_of, headers_of, build_index}
use eventcore.FileStore.Store.{
  FileEventStore, Surroundings, Json, commit, append_events, header_for, envelopes_for,
  to_btree_map,
}
use eventcore.FileStore.Store.Mirror.{Mirrors}
use eventcore.FileStore.Store.Reopen.{IsFresh}

module _ {Value : Type 0} (json : Json Value) (codec : Codec Value) (log_codec : LogCodec)
    (log_path : String) (io : Surroundings) (store : FileEventStore Value) where
  abbrev Outcome : Type 0
  Outcome = Result (Unit {0}) EventStoreError × FileEventStore Value

  -- The transactions `T` and one more, which is in the files, on top of the tips that there were; the
  -- index is the one that opening the files builds, whatever log is found.
  pub record Reopens (T : List (Transaction Value)) (after : FileEventStore Value) : Type 0 where
    pub header : TransactionHeader
    pub envelopes : List (EventEnvelope Value)
    pub body : String
    pub made : serialize_transaction codec header envelopes ≡ ok body
    pub in_files : after.files ≡ UuidMap.insert header.transaction_id body store.files
    pub parents : header.parent_transaction_ids ≡ store.index.tips
    pub mirrors : Mirrors (T ++ (header, envelopes) ∷ []) after.index
    pub opened :
        (log : IngestionLog)
        → (index : Index Value) × (entries : List (Uuid × ℕ)) × (build_index
              (T ++ (header, envelopes) ∷ [])
              log
            ≡ some (index, entries))
          × (after.index.headers ≡ index.headers)
          × (after.index.tips ≡ index.tips)
          × ((k : String) → stream_of after.index.streams k ≡ stream_of index.streams k)

  module _ (T : List (Transaction Value)) (rank : Uuid → ℕ) (mirrors : Mirrors T store.index)
      (dag : IsDag (headers_of T []) rank) (fresh : IsFresh io.transaction_id store.index.headers)
      (expected : HashMap StreamVersion) (items : List (String × (String × Value))) where
    abbrev new_header : TransactionHeader
    new_header = header_for json io store store.index.tips (to_btree_map expected)

    abbrev new_envelopes : List (EventEnvelope Value)
    new_envelopes = (envelopes_for json io store items).0

    abbrev new_index : Index Value
    new_index =
        (commit new_header (envelopes_for json io store items).1 (io.transaction_id ∷ [])
          store.index).1

  module _ {Any : Type 0} (T : List (Transaction Value)) (rank : Uuid → ℕ)
      (mirrors : Mirrors T store.index) (dag : IsDag (headers_of T []) rank)
      (fresh : IsFresh io.transaction_id store.index.headers) (writes : StreamWrites Any)
      (entry : StreamWriteEntry Any) (entries : List (StreamWriteEntry Any)) where
    abbrev appended : Outcome
    appended = append_events json codec log_codec log_path io writes store
