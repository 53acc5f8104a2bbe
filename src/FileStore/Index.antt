-- ===== src/FileStore/Index.antt =====
-- eventcore-fs/src/index.rs: the read model in memory, built from the transaction files and extended
-- by each append.
pub mod Scan
pub mod Streams
use Prim.Native.Nat.{compare}
use eventcore.Prelude.{
  ℕ, suc, ◌+◌, ◌%◌, String, List, [], ◌∷◌, ◌++◌, Bool, true, false, Option, none, some, Result, ok,
  err, ◌>>=◌, map_err, length, ◌==◌, if◌then◌else◌,
}
use eventcore.Prelude.HashMap
use eventcore.Prelude.HashMap.{HashMap}
use eventcore.Prelude.Sorting.{sort_by}
use eventcore.Prelude.UuidMap
use eventcore.Prelude.UuidMap.{Uuid, UuidMap, lookup}
use eventcore.Types.Error.{StreamVersion, usize_mod}
use eventcore.FileStore.Format.{
  FsEventStoreError, init_failed, TransactionHeader, EventEnvelope, LoadedTransaction, valid,
  integrity, Codec, load_transaction,
}
use eventcore.FileStore.Topology.{Headers, linearize, compute_tips}
use eventcore.FileStore.Ingestion.{
  IngestionLog, LogCodec, FileRead, position_from_seq, seq_of, allocate, load, persist,
}

pub record IndexedEvent (Value : Type 0) : Type 0 where
  pub event_id : Uuid
  pub stream_id : String
  pub event_type : String
  pub event_data : Value

pub record Index (Value : Type 0) : Type 0 where
  pub headers : Headers
  pub by_ingestion : List (Uuid × IndexedEvent Value)
  pub streams : HashMap (List (IndexedEvent Value))
  pub tips : List Uuid
  pub log : IngestionLog
  pub integrity_failures : List (Uuid × String)

-- a transaction as it is read from its file
abbrev pub Transaction : Type 0 → Type 0
Transaction Value = TransactionHeader × List (EventEnvelope Value)

-- the variables of the loops of `build_index`
pub record Building (Value : Type 0) : Type 0 where
  pub streams : HashMap (List (IndexedEvent Value))
  pub positioned : List (Uuid × IndexedEvent Value)
  pub new_entries : List (Uuid × ℕ)
  pub log : IngestionLog

module _ {Value : Type 0} where
  abbrev pub stream_of : HashMap (List (IndexedEvent Value)) → String → List (IndexedEvent Value)
  stream_of streams stream_id = elim (HashMap.lookup stream_id streams) [
    | none ↦ []
    | some events ↦ events
  ]

  -- `entry(…).or_default().push(…)`
  unfoldable pub push_stream :
      IndexedEvent Value → HashMap (List (IndexedEvent Value)) → HashMap (List (IndexedEvent Value))
  push_stream indexed streams =
      HashMap.insert indexed.stream_id (stream_of streams indexed.stream_id ++ indexed ∷ []) streams

  abbrev pub stream_head : Index Value → String → ℕ
  stream_head index stream_id = length (stream_of index.streams stream_id)

  unfoldable pub ingest_appended :
      IndexedEvent Value → Index Value → (Uuid × (Uuid × ℕ)) × Index Value
  ingest_appended indexed index =
      let (seq, log) = allocate indexed.event_id index.log in
      let position = position_from_seq seq in
      (
        (position, (indexed.event_id, seq)),
        record index { log = log; by_ingestion = index.by_ingestion ++ (position, indexed) ∷ [] },
      )

  abbrev pub indexed_of : EventEnvelope Value → IndexedEvent Value
  indexed_of envelope = record {
    event_id = envelope.event_id;
    stream_id = envelope.stream_id;
    event_type = envelope.event_type;
    event_data = envelope.event_data;
  }

  -- an event whose number is known, or has just been given
  abbrev positioned_at :
      ℕ → IndexedEvent Value → List (Uuid × ℕ) → IngestionLog → Building Value → Building Value
  positioned_at seq indexed new_entries log b = record {
    streams = push_stream indexed b.streams;
    positioned = b.positioned ++ (position_from_seq seq, indexed) ∷ [];
    new_entries = new_entries;
    log = log;
  }

  -- the body of the inner loop
  unfoldable pub place : IndexedEvent Value → Building Value → Building Value
  place indexed b = elim (seq_of b.log indexed.event_id) [
    | some seq ↦ positioned_at seq indexed b.new_entries b.log b
    | none ↦
        let (seq, log) = allocate indexed.event_id b.log in
        positioned_at seq indexed (b.new_entries ++ (indexed.event_id, seq) ∷ []) log b
  ]

  unfoldable pub place_all : List (EventEnvelope Value) → Building Value → Building Value
  unfolding place
  place_all [] b = b
  place_all (envelope ∷ envelopes) b = place_all envelopes (place (indexed_of envelope) b)

  abbrev pub events_in : UuidMap (List (EventEnvelope Value)) → Uuid → List (EventEnvelope Value)
  events_in events_by_txn id = elim (lookup id events_by_txn) [ none ↦ [] | some events ↦ events ]

  -- the outer loop, over the canonical order
  unfoldable pub place_order :
      List Uuid → UuidMap (List (EventEnvelope Value)) → Building Value → Building Value
  unfolding place_all
  place_order [] events_by_txn b = b
  place_order (id ∷ order) events_by_txn b =
      place_order order (UuidMap.remove id events_by_txn) (place_all (events_in events_by_txn id) b)

  -- the first loop, which fills the two maps
  unfoldable pub headers_of : List (Transaction Value) → Headers → Headers
  headers_of [] headers = headers
  headers_of ((header, events) ∷ rest) headers =
      headers_of rest (UuidMap.insert header.transaction_id header headers)

  unfoldable pub events_of :
      List (Transaction Value)
      → UuidMap (List (EventEnvelope Value))
      → UuidMap (List (EventEnvelope Value))
  events_of [] events = events
  events_of ((header, envelopes) ∷ rest) events =
      events_of rest (UuidMap.insert header.transaction_id envelopes events)

  abbrev pub nothing_built : IngestionLog → Building Value
  nothing_built log = record { streams = []; positioned = []; new_entries = []; log = log }

  -- what is built along a canonical order
  unfoldable pub built : List (Transaction Value) → IngestionLog → List Uuid → Building Value
  unfolding place_order events_of
  built transactions log order = place_order order (events_of transactions []) (nothing_built log)

  unfoldable pub build_index :
      List (Transaction Value) → IngestionLog → Option (Index Value × List (Uuid × ℕ))
  unfolding built headers_of
  build_index transactions log = elim (linearize (headers_of transactions [])) [
    | none ↦ none
    | some order ↦
        let b = built transactions log order in
        some (
          record {
            headers = headers_of transactions [];
            by_ingestion = sort_by (λ p q. compare p.0 q.0) b.positioned;
            streams = b.streams;
            tips = compute_tips (headers_of transactions []);
            log = b.log;
            integrity_failures = [];
          },
          b.new_entries,
        )
  ]

  -- The loop of `build_envelopes`; `now_v7 i` is the identifier that the clock gives in round `i`, and
  -- `added` counts the events of the batch per stream.
  unfoldable pub envelope_items :
      (ℕ → Uuid)
      → Value
      → Index Value
      → ℕ
      → HashMap ℕ
      → List (String × (String × Value))
      → List (EventEnvelope Value)
  envelope_items now_v7 no_metadata index i added [] = []
  envelope_items now_v7 no_metadata index i added ((key, (event_type, event_data)) ∷ items) =
      let offset : ℕ =
        (elim (HashMap.lookup key added) [ none ↦ 0 | some n ↦ n ] + 1) % usize_mod in
      record {
        event_id = now_v7 i;
        stream_id = key;
        stream_version = (stream_head index key + offset) % usize_mod;
        event_type = event_type;
        event_data = event_data;
        metadata = no_metadata;
      }
      ∷ envelope_items now_v7 no_metadata index (suc i) (HashMap.insert key offset added) items

  abbrev pub indexed_all : List (EventEnvelope Value) → List (IndexedEvent Value)
  indexed_all [] = []
  indexed_all (e ∷ es) = indexed_of e ∷ indexed_all es

  -- The second vector has the identifier, stream, type and data of each envelope of the first.
  unfoldable pub build_envelopes :
      (ℕ → Uuid)
      → Value
      → Index Value
      → List (String × (String × Value))
      → List (EventEnvelope Value) × List (IndexedEvent Value)
  unfolding envelope_items
  build_envelopes now_v7 no_metadata index items =
      let envelopes = envelope_items now_v7 no_metadata index 0 [] items in
      (envelopes, indexed_all envelopes)
