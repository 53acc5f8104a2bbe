-- ===== src/Types/Writes/Build.antt =====
-- What `register_stream`, `append` and `build_stream_writes_from_events` make of their arguments.
use eventcore.Prelude.{
  ◌≡◌, refl, List, [], ◌∷◌, ◌++◌, true, none, Result, ok, err, ◌>>=◌, >>=-eq-ok, Result-cases, inl,
  inr, map_err, try_fold, if◌then◌else◌, ◌∙◌, append_assoc, append-nil, arith, All, map,
}
use eventcore.Prelude.HashMap.{HashMap, lookup, contains_key, IsMap, IsMap-middle, insert_new}
use eventcore.Types.Error.{
  StreamId, StreamVersion, EventStoreError, undeclared_stream, serialization_failed,
  event_store_error,
}
use eventcore.Types.Event.{Event}
use eventcore.Types.Writes.{
  StreamWriteEntry, StreamWrites, register_stream, entry_of, append,
  build_stream_writes_from_events,
}

module _ {Any : Type 0} where
  register_new :
      (w : StreamWrites Any) (k : StreamId) (v : StreamVersion)
      → lookup k w.expected_versions ≡ none
      → register_stream w k v
        ≡ ok (record w { expected_versions = w.expected_versions ++ (k, v) ∷ [] })
  unfolding register_stream
  register_new w k v h = ground (arith, insert_new k v w.expected_versions)

  register_all :
      (m n : HashMap StreamVersion) (es : List (StreamWriteEntry Any))
      → IsMap (m ++ n)
      → try_fold
          (λ writes (stream_id, version). register_stream writes stream_id version)
          (record { entries = es; expected_versions = m })
          n
        ≡ ok (record { entries = es; expected_versions = m ++ n })
  unfolding try_fold
  register_all m [] es h = rw append-nil
  register_all m ((k, v) ∷ n) es h =
      rw
        (register_new (record { entries = es; expected_versions = m }) k v (IsMap-middle k v m n h))
        (register_all (m ++ (k, v) ∷ []) n es (rw append_assoc h) ∙ rw append_assoc)

module _ {Any E : Type 0} (ev : Event Any E) where
  -- The direct reading of a batch: each event in turn is declared, and serialized.
  abbrev pub entry : HashMap StreamVersion → E → Result (StreamWriteEntry Any) EventStoreError
  entry m e =
      if contains_key (ev.stream_id e) m
      then (map_err (serialization_failed (ev.stream_id e)) (ev.to_raw_value e) >>= λ s.
          ok (entry_of ev e s))
      else err (undeclared_stream (ev.stream_id e))

  unfoldable pub all_entries :
      HashMap StreamVersion → List E → Result (List (StreamWriteEntry Any)) EventStoreError
  all_entries m [] = ok []
  all_entries m (e ∷ es) = entry m e >>= λ x. all_entries m es >>= λ xs. ok (x ∷ xs)

  append-eq-entry :
      (w : StreamWrites Any) (e : E)
      → append ev w e
        ≡ (entry w.expected_versions e >>= λ x. ok (record w { entries = w.entries ++ x ∷ [] }))
  unfolding append
  append-eq-entry w e = ground arith

  abbrev batch : HashMap StreamVersion → List (StreamWriteEntry Any) → StreamWrites Any
  batch m xs = record { entries = xs; expected_versions = m }

  collect :
      (m : HashMap StreamVersion) (done : List (StreamWriteEntry Any)) (x : StreamWriteEntry Any)
      (r : Result (List (StreamWriteEntry Any)) EventStoreError)
      → ◌≡◌ {A = Result (StreamWrites Any) EventStoreError}
          (r >>= λ xs. ok (batch m ((done ++ x ∷ []) ++ xs)))
          ((r >>= λ xs. ok (x ∷ xs)) >>= λ xs. ok (batch m (done ++ xs)))
  collect m done x (ok xs) = rw append_assoc
  collect m done x (err _) = refl

  append_all :
      (m : HashMap StreamVersion) (done : List (StreamWriteEntry Any)) (es : List E)
      → try_fold (append ev) (record { entries = done; expected_versions = m }) es
        ≡ (all_entries m es >>= λ xs. ok (record { entries = done ++ xs; expected_versions = m }))
  unfolding try_fold all_entries
  append_all m done [] = rw append-nil
  append_all m done (e ∷ es) =
      rw (append-eq-entry (record { entries = done; expected_versions = m }) e)
        (elim (Result-cases (entry m e)) [
          | inl (x, p) ↦
              rw p (append_all m (done ++ x ∷ []) es ∙ collect m done x (all_entries m es))
          | inr (_, p) ↦ rw p
        ])

  pub build-eq-all_entries :
      (events : List E) (m : HashMap StreamVersion)
      → IsMap m
      → build_stream_writes_from_events ev events m
        ≡ map_err event_store_error
            (all_entries m events >>= λ xs. ok (record { entries = xs; expected_versions = m }))
  unfolding build_stream_writes_from_events
  build-eq-all_entries events m h = rw (register_all [] m [] h) (rw (append_all m [] events))

  -- A batch that was built writes only to streams whose version was expected.
  pub all_entries-All :
      (m : HashMap StreamVersion) (es : List E) (xs : List (StreamWriteEntry Any))
      → all_entries m es ≡ ok xs
      → All (λ x. contains_key x.stream_id m ≡ true) xs
        × (map (λ (x : StreamWriteEntry Any). x.event) xs ≡ map ev.boxed es)
  unfolding all_entries
  all_entries-All m [] xs h = ground arith
  all_entries-All m (e ∷ es) xs h =
      let (x, p, q) = >>=-eq-ok (entry m e) _ h in
      let (ys, p', q') = >>=-eq-ok (all_entries m es) _ q in
      ground (arith, all_entries-All m es ys p')
