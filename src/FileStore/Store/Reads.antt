-- ===== src/FileStore/Store/Reads.antt =====
-- The reads of `FileEventStore` (eventcore-fs/src/lib.rs): streams, pages of events, status.
use text.Mathlib.Text.{starts_with}
use eventcore.Prelude.{
  ℕ, String, List, [], ◌∷◌, map, take, drop, filter_by, Bool, true, false, ◌&&◌, Option, none, some,
  Result, ok, err, ◌>>=◌, map_err, ltb, length, ◌==◌, if◌then◌else◌,
}
use eventcore.Prelude.UuidMap.{Uuid, values}
use eventcore.Types.Error.{
  StreamId, StreamVersion, EventStoreError, store_failure, deserialization_failed,
  read_stream as reading,
}
use eventcore.Types.Query.{EventPage, EventFilter, StreamPosition}
use eventcore.Memory.Reader.{matches}
use eventcore.FileStore.Format.{TransactionHeader, FsEventStoreError, corrupted}
use eventcore.FileStore.Index.{IndexedEvent, stream_of}
use eventcore.FileStore.Merge.{Fork, DanglingTransaction, detect_forks_in, detect_dangling_in}
use eventcore.FileStore.Store.{FileEventStore}

-- serde_json at an event type `E` of the application, with the name of the type
pub record EventType (Value E : Type 0) : Type 0 where
  pub from_value : Value → Result E String
  pub event_type_name : String

module _ {Value E : Type 0} (ev : EventType Value E) where
  -- the closure that both reads map over a stream
  unfoldable pub decode : StreamId → IndexedEvent Value → Result E EventStoreError
  decode stream_id indexed =
      map_err (deserialization_failed stream_id) (ev.from_value indexed.event_data)

  unfoldable pub read_stream :
      StreamId → FileEventStore Value → Result (List (Result E EventStoreError)) EventStoreError
  read_stream stream_id store =
      if store.poisoned
      then err (store_failure reading)
      else ok (map (decode stream_id) (stream_of store.index.streams stream_id))

  unfoldable pub read_stream_after :
      StreamId
      → StreamVersion
      → FileEventStore Value
      → Result (List (Result E EventStoreError)) EventStoreError
  read_stream_after stream_id count store =
      if store.poisoned
      then err (store_failure reading)
      else ok (map (decode stream_id) (drop count (stream_of store.index.streams stream_id)))

  abbrev Positioned : Type 0
  Positioned = Uuid × IndexedEvent Value

  unfoldable pub is_after : Option StreamPosition → Positioned → Bool
  is_after none (position, _) = true
  is_after (some after_position) (position, _) = ltb after_position position

  unfoldable pub has_prefix : EventFilter → Positioned → Bool
  has_prefix filter (_, indexed) = elim filter.stream_prefix [
    | none ↦ true
    | some prefix ↦ starts_with indexed.stream_id prefix
  ]

  unfoldable pub has_type : EventFilter → Positioned → Bool
  has_type filter (_, indexed) = elim filter.event_type [
    | none ↦ indexed.event_type == ev.event_type_name
    | some event_type ↦ indexed.event_type == event_type
  ]

  -- `glob` compiles a pattern, as `glob::Pattern::new` does.
  module _ (glob : String → Option (String → Bool)) where
    unfoldable pub fits_pattern : EventFilter → Positioned → Bool
    fits_pattern filter (_, indexed) = elim filter.stream_pattern [
      | none ↦ true
      | some pattern ↦ matches glob pattern indexed.stream_id
    ]

    -- the closure of `filter_map`
    unfoldable pub read_entries : List Positioned → List (E × StreamPosition)
    read_entries [] = []
    read_entries ((position, indexed) ∷ entries) =
        let rest = read_entries entries in
        elim (ev.from_value indexed.event_data) [
          | ok event ↦ (event, position) ∷ rest
          | err _ ↦ rest
        ]

    unfoldable pub read_events :
        EventFilter
        → EventPage
        → FileEventStore Value
        → Result (List (E × StreamPosition)) EventStoreError
    unfolding read_entries fits_pattern has_type has_prefix is_after
    read_events filter page store =
        if store.poisoned
        then err (store_failure reading)
        else ok (
            read_entries (
              take page.limit (
                filter_by (has_type filter) (
                  filter_by (fits_pattern filter) (
                    filter_by (has_prefix filter)
                      (filter_by (is_after page.after_position) store.index.by_ingestion))))))

pub record StoreStatus : Type 0 where
  pub forks : List Fork
  pub dangling : List DanglingTransaction
  pub integrity_failures : List (Uuid × String)

abbrev is_empty {ℓ} : {A : Type ℓ} → List A → Bool
is_empty [] = true
is_empty (_ ∷ _) = false

unfoldable pub is_clean : StoreStatus → Bool
is_clean s = is_empty s.forks && is_empty s.dangling && is_empty s.integrity_failures

module _ {Value : Type 0} (root : String) where
  -- `read_index`
  unfoldable pub lock_index : FileEventStore Value → Result (Unit {0}) FsEventStoreError
  lock_index store = if store.poisoned then err (corrupted root "index lock poisoned") else ok tt

module _ {Value : Type 0} (try_new : String → Result String String) (root : String) where
  unfoldable pub detect_forks : FileEventStore Value → Result (List Fork) FsEventStoreError
  unfolding lock_index
  detect_forks store = lock_index root store >>= λ _. detect_forks_in try_new store.index.headers

  unfoldable pub status : FileEventStore Value → Result StoreStatus FsEventStoreError
  unfolding lock_index
  status store = lock_index root store >>= λ _.
      detect_forks_in try_new store.index.headers >>= λ forks. ok (record {
        forks = forks;
        dangling = detect_dangling_in store.index.headers;
        integrity_failures = store.index.integrity_failures;
      })

module _ {Value : Type 0} (root : String) where
  unfoldable pub topology_generation : FileEventStore Value → Result ℕ FsEventStoreError
  unfolding lock_index
  topology_generation store = lock_index root store >>= λ _. ok (
      length (
        filter_by (λ (header : TransactionHeader). ltb 1 (length header.parent_transaction_ids))
          (values store.index.headers)))
