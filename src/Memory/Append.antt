-- ===== src/Memory/Append.antt =====
-- What `append_events` of eventcore-memory/src/lib.rs does to the streams and to the global log.
use eventcore.Prelude.{
  ℕ, suc, ◌≡◌, refl, ◌∙◌, ◌≢◌, List, [], ◌∷◌, ◌++◌, none, some, Result, ok, err, eqb, if◌then◌else◌,
  arith, ◌==◌, eq_iff, append_assoc, append-nil, ◌↔◌, Option-cases, Bool-cases, inl, inr,
}
use eventcore.Prelude.HashMap.{HashMap, lookup, lookup-insert, IsMap}
use eventcore.Types.Error.{StreamId, StreamVersion, increment, EventStoreError, version_conflict}
use eventcore.Types.Writes.{StreamWriteEntry, StreamWrites}
use eventcore.Types.Query.{StreamPosition}
use eventcore.Memory.Store.{
  GlobalLogEntry, StoreData, events_of, version_of, first_conflict, write_entry, write_entries,
  append_data,
}

-- The events of a batch that go to one stream, in order.
abbrev pub entries_for : {Any : Type 0} → StreamId → List (StreamWriteEntry Any) → List Any
entries_for k [] = []
entries_for k (e ∷ es) =
    let rest = entries_for k es in if e.stream_id == k then e.event ∷ rest else rest

-- The log entries that a batch becomes.
abbrev pub logged :
    {Any : Type 0} → (ℕ → StreamPosition) → ℕ → List (StreamWriteEntry Any) → List GlobalLogEntry
logged now_v7 i [] = []
logged now_v7 i (e ∷ es) =
    record {
      event_id = now_v7 i;
      stream_id = e.stream_id;
      event_type = e.event_type;
      event_data = e.event_data;
    }
    ∷ logged now_v7 (suc i) es

entries_for_cons :
    {Any : Type 0} (k : StreamId) (e : StreamWriteEntry Any) (es : List (StreamWriteEntry Any))
    → entries_for k (e ∷ es) ≡ entries_for k (e ∷ []) ++ entries_for k es
entries_for_cons k e es = ground arith

module _ {Any Value : Type 0} where
  -- Every stream that the batch names is at the version that it expects.
  abbrev pub Matches : StoreData Any Value → HashMap StreamVersion → Type 0
  Matches d expected =
      (k : StreamId) (v : StreamVersion) → lookup k expected ≡ some v → version_of d k ≡ v

  pub first_conflict-none :
      (d : StoreData Any Value) (m : HashMap StreamVersion) (k : StreamId) (v : StreamVersion)
      → first_conflict d m ≡ none
      → lookup k m ≡ some v
      → version_of d k ≡ v
  unfolding first_conflict lookup
  first_conflict-none d [] k v h e = absurd (ground arith)
  first_conflict-none d ((j, w) ∷ m) k v h e =
      ground (arith, eq_iff j k, first_conflict-none d m k v)

  first_conflict_back :
      (d : StoreData Any Value) (m : HashMap StreamVersion)
      → IsMap m
      → Matches d m
      → first_conflict d m ≡ none
  unfolding first_conflict lookup
  first_conflict_back d [] h f = refl
  first_conflict_back d ((j, w) ∷ m) h f = ground (
    arith,
    f j w (ground (arith, eq_iff j j)),
    first_conflict_back d m h.1 (λ k v e. f k v (ground (arith, eq_iff j k))),
  )

  pub events_of-write_entry :
      (id : StreamPosition) (e : StreamWriteEntry Any) (d : StoreData Any Value) (k : StreamId)
      → events_of (write_entry id e d) k ≡ events_of d k ++ entries_for k (e ∷ [])
  unfolding write_entry
  events_of-write_entry id e d k = ground (
    arith,
    lookup-insert e.stream_id k
        (events_of d e.stream_id ++ e.event ∷ [], increment (version_of d e.stream_id)) d.streams,
    eq_iff e.stream_id k,
    append-nil (events_of d k),
  )

  pub version_of-write_entry :
      (id : StreamPosition) (e : StreamWriteEntry Any) (d : StoreData Any Value) (k : StreamId)
      → version_of (write_entry id e d) k
        ≡ (if e.stream_id == k then increment (version_of d k) else version_of d k)
  unfolding write_entry
  version_of-write_entry id e d k = ground (
    arith,
    lookup-insert e.stream_id k
        (events_of d e.stream_id ++ e.event ∷ [], increment (version_of d e.stream_id)) d.streams,
    eq_iff e.stream_id k,
  )

  pub events_of-write_entries :
      (now_v7 : ℕ → StreamPosition) (i : ℕ) (es : List (StreamWriteEntry Any))
      (d : StoreData Any Value) (k : StreamId)
      → events_of (write_entries now_v7 i es d) k ≡ events_of d k ++ entries_for k es
  unfolding write_entries
  events_of-write_entries now_v7 i [] d k = rw append-nil
  events_of-write_entries now_v7 i (e ∷ es) d k =
      events_of-write_entries now_v7 (suc i) es (write_entry (now_v7 i) e d) k
      ∙ (rw (events_of-write_entry (now_v7 i) e d k)
          (rw append_assoc (rw (← entries_for_cons k e es))))

  pub global_log-write_entries :
      (now_v7 : ℕ → StreamPosition) (i : ℕ) (es : List (StreamWriteEntry Any))
      (d : StoreData Any Value)
      → (write_entries now_v7 i es d).global_log ≡ d.global_log ++ logged now_v7 i es
  unfolding write_entries write_entry
  global_log-write_entries now_v7 i [] d = rw append-nil
  global_log-write_entries now_v7 i (e ∷ es) d =
      global_log-write_entries now_v7 (suc i) es (write_entry (now_v7 i) e d) ∙ rw append_assoc

  -- What an append leaves alone.
  abbrev pub OnlyEvents : StoreData Any Value → StoreData Any Value → Type 0
  OnlyEvents d d' =
      (d'.checkpoints ≡ d.checkpoints)
      × (d'.command_state_snapshots ≡ d.command_state_snapshots)
      × (d'.locks ≡ d.locks)

  pub OnlyEvents-write_entries :
      (now_v7 : ℕ → StreamPosition) (i : ℕ) (es : List (StreamWriteEntry Any))
      (d : StoreData Any Value)
      → OnlyEvents d (write_entries now_v7 i es d)
  unfolding write_entries write_entry
  OnlyEvents-write_entries now_v7 i [] d = (refl, refl, refl)
  OnlyEvents-write_entries now_v7 i (e ∷ es) d =
      OnlyEvents-write_entries now_v7 (suc i) es (write_entry (now_v7 i) e d)

  conflict_found :
      (d : StoreData Any Value) (m : HashMap StreamVersion) (e : EventStoreError)
      → IsMap m
      → first_conflict d m ≡ some e
      → (k : StreamId) × (v : StreamVersion) × (lookup k m ≡ some v)
        × (e ≡ version_conflict k v (version_of d k))
        × (version_of d k ≢ v)
  unfolding first_conflict lookup
  conflict_found d [] e h c = absurd (ground arith)
  conflict_found d ((j, w) ∷ m) e h c = elim (Bool-cases (eqb (version_of d j) w)) [
    | inl same ↦
        let (k, v, found, p, q) = conflict_found d m e h.1 (rw same at c) in
        (k, v, ground (arith, eq_iff j k), p, q)
    | inr differ ↦ (j, w, ground (arith, eq_iff j j), ground arith, ground arith)
  ]

  -- How a call may end that began at `d`.
  abbrev pub Appended :
      (ℕ → StreamPosition)
      → StreamWrites Any
      → StoreData Any Value
      → Result (Unit {0}) EventStoreError × StoreData Any Value
      → Type 0
  Appended now_v7 writes d (ok _, d') =
      Matches d writes.expected_versions
      × ((k : StreamId) → events_of d' k ≡ events_of d k ++ entries_for k writes.entries)
      × (d'.global_log ≡ d.global_log ++ logged now_v7 0 writes.entries)
      × OnlyEvents d d'
  Appended now_v7 writes d (err e, d') =
      (d' ≡ d)
      × ((k : StreamId) × (v : StreamVersion) × (lookup k writes.expected_versions ≡ some v)
          × (e ≡ version_conflict k v (version_of d k))
          × (version_of d k ≢ v))

  pub append_data-none :
      (now_v7 : ℕ → StreamPosition) (writes : StreamWrites Any) (d : StoreData Any Value)
      → first_conflict d writes.expected_versions ≡ none
      → append_data now_v7 writes d ≡ (ok tt, write_entries now_v7 0 writes.entries d)
  unfolding append_data
  append_data-none now_v7 writes d h = ground arith

  pub append_data-some :
      (now_v7 : ℕ → StreamPosition) (writes : StreamWrites Any) (d : StoreData Any Value)
      (e : EventStoreError)
      → first_conflict d writes.expected_versions ≡ some e
      → append_data now_v7 writes d ≡ (err e, d)
  unfolding append_data
  append_data-some now_v7 writes d e h = ground arith

  pub append_data-Appended :
      (now_v7 : ℕ → StreamPosition) (writes : StreamWrites Any) (d : StoreData Any Value)
      → IsMap writes.expected_versions
      → Appended now_v7 writes d (append_data now_v7 writes d)
  append_data-Appended now_v7 writes d h =
      elim (Option-cases (first_conflict d writes.expected_versions)) [
        | inl no_conflict ↦ rw (append_data-none now_v7 writes d no_conflict) (
          λ k v. first_conflict-none d writes.expected_versions k v no_conflict,
          events_of-write_entries now_v7 0 writes.entries d,
          global_log-write_entries now_v7 0 writes.entries d,
          OnlyEvents-write_entries now_v7 0 writes.entries d,
        )
        | inr (e, found) ↦
            rw (append_data-some now_v7 writes d e found)
              (refl, conflict_found d writes.expected_versions e h found)
      ]

  -- An append succeeds exactly when every stream that the batch names is at its expected version.
  pub append_data_iff :
      (now_v7 : ℕ → StreamPosition) (writes : StreamWrites Any) (d : StoreData Any Value)
      → IsMap writes.expected_versions
      → ((append_data now_v7 writes d).0 ≡ ok tt) ↔ Matches d writes.expected_versions
  append_data_iff now_v7 writes d h = (
    λ done. elim (Option-cases (first_conflict d writes.expected_versions)) [
      | inl no_conflict ↦ λ k v. first_conflict-none d writes.expected_versions k v no_conflict
      | inr (e, found) ↦ absurd (cc (append_data-some now_v7 writes d e found))
    ],
    λ matches. rw (
        append_data-none now_v7 writes d
          (first_conflict_back d writes.expected_versions h matches)),
  )

  -- What an outcome says of a call that returned `ok`.
  pub Appended-ok :
      (now_v7 : ℕ → StreamPosition) (writes : StreamWrites Any) (d : StoreData Any Value)
      (p : Result (Unit {0}) EventStoreError × StoreData Any Value)
      → Appended now_v7 writes d p
      → p.0 ≡ ok tt
      → Matches d writes.expected_versions
        × ((k : StreamId) → events_of p.1 k ≡ events_of d k ++ entries_for k writes.entries)
  Appended-ok now_v7 writes d (ok _, d') h e = (h.0, h.1)
  Appended-ok now_v7 writes d (err _, d') h e = absurd (cc)

  -- What an outcome says of a call that returned an error.
  pub Appended-err :
      (now_v7 : ℕ → StreamPosition) (writes : StreamWrites Any) (d : StoreData Any Value)
      (p : Result (Unit {0}) EventStoreError × StoreData Any Value) (x : EventStoreError)
      → Appended now_v7 writes d p
      → p.0 ≡ err x
      → p.1 ≡ d
  Appended-err now_v7 writes d (ok _, d') x h e = absurd (cc)
  Appended-err now_v7 writes d (err _, d') x h e = h.0
