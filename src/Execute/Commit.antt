-- ===== src/Execute/Commit.antt =====
-- The moment of the append: a batch that is accepted was decided on what the streams hold then.
use eventcore.Prelude.{
  suc, ◌+◌, ◌%◌, ◌<◌, ◌≡◌, refl, sym, ap, ◌∙◌, List, [], ◌∷◌, ◌++◌, map, length, length-append,
  append_length_eq, append_assoc, none, some, Result, ok, err, arith, Option-cases, inl, inr,
  map_err, ◌>>=◌,
}
use eventcore.Prelude.HashMap.{HashMap, lookup, IsMap}
use eventcore.Types.Error.{StreamId, StreamVersion, usize_mod, EventStoreError, event_store_error}
use eventcore.Types.Event.{Event}
use eventcore.Types.Writes.{StreamWriteEntry, StreamWrites, build_stream_writes_from_events}
use eventcore.Types.Writes.Build.{all_entries, build-eq-all_entries}
use eventcore.Memory.Append.{entries_for}
use eventcore.Execute.Interface.{CommandLogic, Grows, AtVersions, Grows-trans}
use eventcore.Execute.Pipeline.{Reading, next_unvisited}
use eventcore.Execute.Atomic.{Serialized, IsCountable}
use eventcore.Execute.ReadPhase.{ReadSoFar, version_read, Agrees}

length-map {ℓ κ} :
    {A : Type ℓ} {B : Type κ} (f : A → B) (xs : List A) → length (map f xs) ≡ length xs
length-map f [] = refl
length-map f (x ∷ xs) = ap suc (length-map f xs)

-- The events that a read found, by stream.
abbrev pub events_read {ℓ} : {E : Type ℓ} → HashMap (List E) → StreamId → List E
events_read log k = elim (lookup k log) [ none ↦ [] | some es ↦ es ]

Agrees-events_read {ℓ} : {E : Type ℓ} (log : HashMap (List E)) → Agrees (events_read log) log
Agrees-events_read log k es h = ground arith

module _ {Any E S Value W : Type 0} (ev : Event Any E) (command : CommandLogic E S Value)
    (history : W → StreamId → List Any) (decode : StreamId → Any → Result E EventStoreError) where
  pub expected_versions-build :
      (events : List E) (m : HashMap StreamVersion) (writes : StreamWrites Any)
      → IsMap m
      → build_stream_writes_from_events ev events m ≡ ok writes
      → writes.expected_versions ≡ m
  expected_versions-build events m writes h b =
      go (all_entries ev m events) (sym (build-eq-all_entries ev events m h) ∙ b)
    where
      go :
          (r : Result (List (StreamWriteEntry Any)) EventStoreError)
          → map_err event_store_error
              (r >>= λ xs. ok (record { entries = xs; expected_versions = m }))
            ≡ ok writes
          → writes.expected_versions ≡ m
      go (ok xs) e = cc
      go (err _) e = cc

  -- What was read of a stream that still has the expected version is all that it holds.
  still_current :
      (c : W) (k : StreamId) (es : List E) (seen later : List Any)
      → history c k ≡ seen ++ later
      → map (decode k) seen ≡ map ok es
      → length (history c k) % usize_mod ≡ length es % usize_mod
      → length (history c k) < usize_mod
      → map (decode k) (history c k) ≡ map ok es
  still_current c k es seen later p d v b =
      let n : length seen ≡ length es =
        sym (length-map (decode k) seen) ∙ ap length d ∙ length-map ok es in
      let total : length (history c k) ≡ length seen + length later =
        ap length p ∙ length-append seen later in
      let same : length (seen ++ later) ≡ length seen = omega (arith, length-append seen later) in
      rw (p, append_length_eq seen later same) d

  read_is_current :
      (w₀ w c : W) (log : HashMap (List E)) (r : Reading S)
      → ReadSoFar command history decode w₀ w log r
      → Grows history w c
      → ((k : StreamId) → length (history c k) < usize_mod)
      → ((k : StreamId) (v : StreamVersion)
          → lookup k r.expected_versions ≡ some v
          → length (history c k) % usize_mod ≡ v)
      → (k : StreamId) (v : StreamVersion) → lookup k r.expected_versions ≡ some v
      → map (decode k) (history c k) ≡ map ok (events_read log k)
  read_is_current w₀ w c log r s g bound at k v e = elim (Option-cases (lookup k log)) [
    | inl missing ↦ absurd (cc (s.versions k, ap version_read missing))
    | inr (es, found) ↦
        let rec = s.recorded k es found in
        let (more, grown) = g k in
        let agree : events_read log k ≡ es = Agrees-events_read log k es found in
        let size : v ≡ length es % usize_mod = cc (s.versions k, ap version_read found) in
        rw agree (
          still_current c k es rec.seen (rec.later ++ more)
            (grown ∙ ap (λ xs. xs ++ more) rec.prefix ∙ append_assoc rec.seen rec.later more)
            rec.decoded (at k v e ∙ size) (bound k))
  ]

  -- An append that is accepted while the invariant of the read phase holds makes the run one that
  -- took effect in an instant.
  pub Serialized-commit :
      (w₀ w c w' : W) (log : HashMap (List E)) (r : Reading S) (events : List E)
      (writes : StreamWrites Any)
      → ReadSoFar command history decode w₀ w log r
      → next_unvisited r.visited r.queue ≡ none
      → command.handle r.state ≡ ok events
      → build_stream_writes_from_events ev events r.expected_versions ≡ ok writes
      → Grows history w c
      → AtVersions history c writes
      → ((k : StreamId) → history w' k ≡ history c k ++ entries_for k writes.entries)
      → IsCountable history w'
      → Serialized ev command history decode w₀ w'
  Serialized-commit w₀ w c w' log r events writes s last h b g at app bound =
      let same = expected_versions-build events r.expected_versions writes s.is_map b in
      record {
        instant = c;
        events_at = events_read log;
        reading = r;
        decided = events;
        writes = writes;
        after_start = Grows-trans history w₀ w c s.grown g;
        replayed = s.replays (events_read log) (Agrees-events_read log);
        all_read = last;
        current =
            read_is_current w₀ w c log r s g
              (λ k. omega (
                arith,
                bound k,
                ap length (app k),
                length-append (history c k) (entries_for k writes.entries),
              ))
              (λ k v e. at k v (ap (lookup k) same ∙ e));
        handled = h;
        built = b;
        appended = app;
      }
