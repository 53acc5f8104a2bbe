-- ===== src/FileStore/Index/Streams.antt =====
-- What each stream of a built index holds: its events, in the canonical order of the transactions.
use mathlib.Core.Path.{ap₂}
use eventcore.Prelude.{
  ◌≡◌, refl, sym, ap, ◌∙◌, String, List, [], ◌∷◌, ◌++◌, append_assoc, append-nil, false, arith,
  filter_by, ◌==◌, eq_iff, eqb,
}
use eventcore.Prelude.HashMap.{HashMap, lookup-insert, lookup-nil}
use eventcore.Prelude.UuidMap
use eventcore.Prelude.UuidMap.{Uuid, UuidMap, lookup, lookup-remove, contains, IsDistinct}
use eventcore.FileStore.Format.{EventEnvelope}
use eventcore.FileStore.Ingestion.{IngestionLog}
use eventcore.FileStore.Index.{
  IndexedEvent, Building, stream_of, push_stream, place, place_all, place_order, indexed_of,
  indexed_all, events_in, Transaction, built, events_of, nothing_built,
}

module _ {Value : Type 0} where
  -- the events of a stream among those of a list
  abbrev pub of_stream : String → List (IndexedEvent Value) → List (IndexedEvent Value)
  of_stream k events = filter_by (λ (e : IndexedEvent Value). e.stream_id == k) events

  pub of_stream-append :
      (k : String) (xs ys : List (IndexedEvent Value))
      → of_stream k (xs ++ ys) ≡ of_stream k xs ++ of_stream k ys
  of_stream-append k [] ys = refl
  of_stream-append k (x ∷ xs) ys = ground (arith, of_stream-append k xs ys)

  pub stream_of-push_stream :
      (e : IndexedEvent Value) (streams : HashMap (List (IndexedEvent Value))) (k : String)
      → stream_of (push_stream e streams) k ≡ stream_of streams k ++ of_stream k (e ∷ [])
  unfolding push_stream
  stream_of-push_stream e streams k = ground (
    arith,
    lookup-insert e.stream_id k (stream_of streams e.stream_id ++ e ∷ []) streams,
    eq_iff e.stream_id k,
    append-nil (stream_of streams k),
  )

  place_streams :
      (e : IndexedEvent Value) (b : Building Value) → (place e b).streams ≡ push_stream e b.streams
  unfolding place
  place_streams e b = ground arith

  stream_of-place :
      (e : IndexedEvent Value) (b : Building Value) (k : String)
      → stream_of (place e b).streams k ≡ stream_of b.streams k ++ of_stream k (e ∷ [])
  stream_of-place e b k =
      ap (λ streams. stream_of streams k) (place_streams e b) ∙ stream_of-push_stream e b.streams k

  stream_of-place_all :
      (es : List (EventEnvelope Value)) (b : Building Value) (k : String)
      → stream_of (place_all es b).streams k ≡ stream_of b.streams k ++ of_stream k (indexed_all es)
  unfolding place_all
  stream_of-place_all [] b k = sym (append-nil (stream_of b.streams k))
  stream_of-place_all (e ∷ es) b k =
      stream_of-place_all es (place (indexed_of e) b) k
      ∙ ap (λ xs. xs ++ of_stream k (indexed_all es)) (stream_of-place (indexed_of e) b k)
      ∙ append_assoc (stream_of b.streams k) (of_stream k (indexed_of e ∷ []))
          (of_stream k (indexed_all es))
      ∙ ap (λ xs. stream_of b.streams k ++ xs)
          (sym (of_stream-append k (indexed_of e ∷ []) (indexed_all es)))

  -- all events along an order of transactions
  abbrev pub canonical_events :
      List Uuid → UuidMap (List (EventEnvelope Value)) → List (IndexedEvent Value)
  canonical_events [] events = []
  canonical_events (id ∷ order) events =
      indexed_all (events_in events id) ++ canonical_events order events

  events_in-remove :
      (id other : Uuid) (events : UuidMap (List (EventEnvelope Value)))
      → eqb id other ≡ false
      → events_in (UuidMap.remove id events) other ≡ events_in events other
  events_in-remove id other events h = ground (arith, lookup-remove id other events)

  canonical_events-remove :
      (id : Uuid) (order : List Uuid) (events : UuidMap (List (EventEnvelope Value)))
      → contains id order ≡ false
      → canonical_events order (UuidMap.remove id events) ≡ canonical_events order events
  unfolding contains
  canonical_events-remove id [] events h = refl
  canonical_events-remove id (j ∷ order) events h =
      ap₂ (λ (xs ys : List (IndexedEvent Value)). xs ++ ys)
        (ap indexed_all (events_in-remove id j events (ground arith)))
        (canonical_events-remove id order events (ground arith))

  stream_of-place_order :
      (order : List Uuid) (events : UuidMap (List (EventEnvelope Value))) (b : Building Value)
      (k : String)
      → IsDistinct order
      → stream_of (place_order order events b).streams k
        ≡ stream_of b.streams k ++ of_stream k (canonical_events order events)
  unfolding place_order
  stream_of-place_order [] events b k h = sym (append-nil (stream_of b.streams k))
  stream_of-place_order (id ∷ order) events b k h =
      let here = indexed_all (events_in events id) in
      let rest = canonical_events order events in
      stream_of-place_order order (UuidMap.remove id events) (place_all (events_in events id) b) k
        h.1
      ∙ ap₂ (λ (xs ys : List (IndexedEvent Value)). xs ++ of_stream k ys)
          (stream_of-place_all (events_in events id) b k)
          (canonical_events-remove id order events h.0)
      ∙ append_assoc (stream_of b.streams k) (of_stream k here) (of_stream k rest)
      ∙ ap (λ xs. stream_of b.streams k ++ xs) (sym (of_stream-append k here rest))

  -- A built index holds in each stream its events in the order of the transactions.
  pub stream_of-built :
      (transactions : List (Transaction Value)) (log : IngestionLog) (order : List Uuid)
      (k : String)
      → IsDistinct order
      → stream_of (built transactions log order).streams k
        ≡ of_stream k (canonical_events order (events_of transactions []))
  unfolding built
  stream_of-built transactions log order k h =
      let nothing : stream_of (nothing_built {Value = Value} log).streams k ≡ [] =
        ground (arith, lookup-nil {V = List (IndexedEvent Value)} k) in
      stream_of-place_order order (events_of transactions []) (nothing_built log) k h
      ∙ ap
          (λ (xs : List (IndexedEvent Value)).
            xs ++ of_stream k (canonical_events order (events_of transactions [])))
          nothing
