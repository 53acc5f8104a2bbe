-- ===== src/FileStore/Store/Cases.antt =====
-- The branches of an append of eventcore-fs/src/lib.rs: the versions it has checked, and what is left when
-- it fails.
use eventcore.Prelude.{
  ℕ, ◌≡◌, refl, ◌⊎◌, inl, inr, String, List, [], ◌∷◌, true, Option, none, some, Result, ok, err,
  map_err, arith, eqb, eqb_iff, Bool-cases, All,
}
use eventcore.Prelude.HashMap.{HashMap}
use eventcore.Prelude.UuidMap
use eventcore.Prelude.UuidMap.{Uuid, UuidMap, lookup}
use eventcore.Types.Error.{
  EventStoreError, StreamVersion, store_failure, append_events as appending,
}
use eventcore.Types.Writes.{StreamWrites}
use eventcore.FileStore.Format.{
  TransactionHeader, FsEventStoreError, EventEnvelope, Codec, serialize_transaction,
}
use eventcore.FileStore.Ingestion.{LogCodec, persist}
use eventcore.FileStore.Index.{IndexedEvent, Index, stream_head}
use eventcore.FileStore.Store.{
  FileEventStore, Surroundings, Json, commit, write_transaction, after_file, after_body,
  after_parsing, after_checks, refusal, header_for, envelopes_for, first_conflict, parse_entries,
  to_btree_map,
}

module _ {Value : Type 0} where
  -- the stream is at the version
  unfoldable pub IsCurrent : Index Value → String × StreamVersion → Type 0
  IsCurrent index (stream_id, expected) = stream_head index stream_id ≡ expected

  first_conflict-none :
      (index : Index Value) (expected : HashMap StreamVersion)
      → first_conflict index expected ≡ none
      → All (IsCurrent index) expected
  unfolding first_conflict IsCurrent
  first_conflict-none index [] e = tt
  first_conflict-none index ((stream_id, version) ∷ rest) e =
      elim (Bool-cases (eqb (stream_head index stream_id) version)) [
        | inl same ↦ (
          (eqb_iff (stream_head index stream_id) version).0 same,
          first_conflict-none index rest (ground (arith)),
        )
        | inr other ↦ absurd (ground (arith))
      ]

  first_conflict_found :
      (index : Index Value) (expected : HashMap StreamVersion) (e : EventStoreError)
      → first_conflict index expected ≡ some e
      → ¬ All (IsCurrent index) expected
  unfolding first_conflict IsCurrent
  first_conflict_found index [] e found current = absurd (ground arith)
  first_conflict_found index ((stream_id, version) ∷ rest) e found current =
      first_conflict_found index rest e (ground (arith, current.0)) current.1

module _ {Value : Type 0} (json : Json Value) (codec : Codec Value) (log_codec : LogCodec)
    (log_path : String) (io : Surroundings) (store : FileEventStore Value) where
  abbrev pub Outcome : Type 0
  Outcome = Result (Unit {0}) EventStoreError × FileEventStore Value

  module _ (header : TransactionHeader) (envelopes : List (EventEnvelope Value))
      (new_events : List (IndexedEvent Value)) where
    abbrev pub committed : List (Uuid × ℕ) × Index Value
    committed = commit header new_events (header.transaction_id ∷ []) store.index

    abbrev pub persisted : Result (Unit {0}) FsEventStoreError × String
    persisted =
        persist log_codec log_path io.log_opened io.log_written io.log_partial committed.0
          store.log_text

    abbrev pub stored : String → Outcome
    stored body = (
      map_err (λ _. store_failure appending) persisted.0,
      record store {
        index = committed.1;
        files = UuidMap.insert header.transaction_id body store.files;
        log_text = persisted.1;
      },
    )

    abbrev written : Outcome
    written =
        write_transaction json codec log_codec log_path io header (envelopes, new_events) store

    -- what keeps a transaction from being written
    pub Unwritten : Type 0
    Unwritten =
        ((e : EventStoreError) × (serialize_transaction codec header envelopes ≡ err e))
        ⊎ ((source : String) × (io.file_written ≡ err source))

    Written : Outcome → Type 0
    Written outcome =
        ((e : EventStoreError) × (outcome ≡ (err e, store)) × Unwritten)
        ⊎ ((body : String) × (serialize_transaction codec header envelopes ≡ ok body)
            × (outcome ≡ stored body))

    after_file_lem :
        (r : Result (Unit {0}) String) (body : String)
        → serialize_transaction codec header envelopes ≡ ok body
        → io.file_written ≡ r
        → Written (after_file json codec log_codec log_path io r header new_events body store)
    unfolding after_file Written Unwritten
    after_file_lem (err e) body made wrote = inl (store_failure appending, refl, inr (e, wrote))
    after_file_lem (ok u) body made wrote = inr (body, made, refl)

    after_body_lem :
        (r : Result String EventStoreError)
        → serialize_transaction codec header envelopes ≡ r
        → Written (after_body json codec log_codec log_path io r header new_events store)
    unfolding after_body Written Unwritten
    after_body_lem (err e) made = inl (e, refl, inl (e, made))
    after_body_lem (ok body) made = after_file_lem io.file_written body made refl

    -- Nothing was written, or all was.
    write_transaction_lem :
        Written
          (write_transaction json codec log_codec log_path io header (envelopes, new_events) store)
    unfolding write_transaction
    write_transaction_lem = after_body_lem (serialize_transaction codec header envelopes) refl

  -- No conflict, events that can be parsed, and a transaction of them that was written.
  module _ {Any : Type 0} (writes : StreamWrites Any) where
    abbrev pub header : TransactionHeader
    header = header_for json io store store.index.tips (to_btree_map writes.expected_versions)

    -- what makes an append return an error: an index that cannot be locked, a stream that is not at its
    -- expected version, an event that is no JSON, or a transaction that cannot be serialized or written
    pub data Hindrance : Type 0 where
      locked : store.poisoned ≡ true → Hindrance
      moved : ¬ All (IsCurrent store.index) writes.expected_versions → Hindrance
      unparsed : (e : EventStoreError) → parse_entries json writes.entries ≡ err e → Hindrance
      unwritten :
          (items : List (String × (String × Value)))
          → Unwritten header
              (envelopes_for json io store items).0
              (envelopes_for json io store items).1
          → Hindrance

    unfoldable pub Appended : Outcome → Type 0
    Appended outcome =
        ((e : EventStoreError) × (outcome ≡ (err e, store)) × Hindrance)
        ⊎ (All (IsCurrent store.index) writes.expected_versions
            × (items : List (String × (String × Value))) × (parse_entries json writes.entries
                ≡ ok items)
            × (body : String) × (serialize_transaction codec header
                  (envelopes_for json io store items).0
                ≡ ok body)
            × (outcome
                ≡ stored header (envelopes_for json io store items).0
                    (envelopes_for json io store items).1 body))

    after_parsing_lem :
        All (IsCurrent store.index) writes.expected_versions
        → (r : Result (List (String × (String × Value))) EventStoreError)
        → parse_entries json writes.entries ≡ r
        → Appended (after_parsing json codec log_codec log_path io r writes.expected_versions store)
    unfolding after_parsing Appended Written
    after_parsing_lem current (err e) parsed = inl (e, refl, unparsed e parsed)
    after_parsing_lem current (ok items) parsed =
        elim (write_transaction_lem header (envelopes_for json io store items).0
          (envelopes_for json io store items).1) [
            | inl (e, unchanged, why) ↦ inl (e, unchanged, unwritten items why)
            | inr (body, made, whole) ↦ inr (current, items, parsed, body, made, whole)
          ]

    pub after_checks_lem :
        (r : Option EventStoreError)
        → refusal store writes.expected_versions ≡ r
        → Appended (after_checks json codec log_codec log_path io r writes store)
    unfolding after_checks Appended refusal
    after_checks_lem (some e) found = inl (
      e,
      refl,
      elim (Bool-cases store.poisoned) [
        | inl poisoned ↦ locked poisoned
        | inr sound ↦ moved (
            first_conflict_found store.index writes.expected_versions e
              (ground (arith, found, sound)))
      ],
    )
    after_checks_lem none found =
        after_parsing_lem (first_conflict-none store.index writes.expected_versions (ground arith))
          (parse_entries json writes.entries) refl
