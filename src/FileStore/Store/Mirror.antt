-- ===== src/FileStore/Store/Mirror.antt =====
-- The index in memory and the transactions of the files: what it means that they agree, and that an
-- index which is built from files agrees with them.
use eventcore.Prelude.{
  ℕ, ◌≡◌, refl, sym, ap, ◌∙◌, String, List, [], ◌∷◌, ◌++◌, append_assoc, append-nil, false, some,
  arith, eqb, if◌then◌else◌,
}
use mathlib.Core.Path.{ap₂}
use Prim.Native.Nat.{compare}
use eventcore.Prelude.Sorting.{sort_by}
use eventcore.Prelude.UuidMap
use eventcore.Prelude.UuidMap.{
  Uuid, UuidMap, lookup, lookup-insert, contains, contains_key, contains-append, contains-keys,
  keys, values, IsDistinct,
}
use eventcore.Prelude.UuidMap.Order.{IsAscending-IsDistinct}
use eventcore.FileStore.Format.{TransactionHeader, EventEnvelope}
use eventcore.FileStore.Topology.{Headers, linearize, compute_tips}
use eventcore.FileStore.Topology.Depth.{IsDag}
use eventcore.FileStore.Topology.Order.{linearize-IsCanonical, compare_in-Comparison}
use eventcore.FileStore.Topology.Last.{insert-IsDistinct}
use eventcore.FileStore.Ingestion.{IngestionLog}
use eventcore.FileStore.Index.{
  IndexedEvent, Index, Transaction, stream_of, indexed_all, events_in, headers_of, events_of, built,
  build_index,
}
use eventcore.FileStore.Index.Streams.{of_stream, canonical_events, stream_of-built}

module _ {Value : Type 0} where
  pub headers_of-IsDistinct :
      (T : List (Transaction Value)) (m : Headers)
      → IsDistinct (keys m)
      → IsDistinct (keys (headers_of T m))
  unfolding headers_of
  headers_of-IsDistinct [] m h = h
  headers_of-IsDistinct ((header, events) ∷ T) m h =
      headers_of-IsDistinct T (UuidMap.insert header.transaction_id header m)
        (insert-IsDistinct header.transaction_id header m h)

  pub headers_of-concat :
      (T : List (Transaction Value)) (m : Headers) (header : TransactionHeader)
      (events : List (EventEnvelope Value))
      → headers_of (T ++ (header, events) ∷ []) m
        ≡ UuidMap.insert header.transaction_id header (headers_of T m)
  unfolding headers_of
  headers_of-concat [] m header events = refl
  headers_of-concat ((h, es) ∷ T) m header events =
      headers_of-concat T (UuidMap.insert h.transaction_id h m) header events

  pub events_of-concat :
      (T : List (Transaction Value)) (m : UuidMap (List (EventEnvelope Value)))
      (header : TransactionHeader) (events : List (EventEnvelope Value))
      → events_of (T ++ (header, events) ∷ []) m
        ≡ UuidMap.insert header.transaction_id events (events_of T m)
  unfolding events_of
  events_of-concat [] m header events = refl
  events_of-concat ((h, es) ∷ T) m header events =
      events_of-concat T (UuidMap.insert h.transaction_id es m) header events

  events_in-insert :
      (new id : Uuid) (es : List (EventEnvelope Value)) (m : UuidMap (List (EventEnvelope Value)))
      → events_in (UuidMap.insert new es m) id ≡ (if eqb new id then es else events_in m id)
  events_in-insert new id es m = ground (arith, lookup-insert new id es m)

  pub canonical_events-concat :
      (new : Uuid) (es : List (EventEnvelope Value)) (order : List Uuid)
      (m : UuidMap (List (EventEnvelope Value)))
      → contains new order ≡ false
      → canonical_events (order ++ new ∷ []) (UuidMap.insert new es m)
        ≡ canonical_events order m ++ indexed_all es
  unfolding contains
  canonical_events-concat new es [] m h =
      append-nil (indexed_all (events_in (UuidMap.insert new es m) new))
      ∙ ap indexed_all (ground (arith, events_in-insert new new es m))
  canonical_events-concat new es (id ∷ order) m h =
      ap₂ (λ (xs ys : List (IndexedEvent Value)). xs ++ ys)
        (ap indexed_all (ground (arith, events_in-insert new id es m)))
        (canonical_events-concat new es order m (ground arith))
      ∙ sym
          (append_assoc (indexed_all (events_in m id)) (canonical_events order m) (indexed_all es))

  -- The index holds what the transactions `T` amount to, whatever order they were found in.
  pub record Mirrors (T : List (Transaction Value)) (index : Index Value) : Type 0 where
    pub same_headers : index.headers ≡ headers_of T []
    pub order : List Uuid
    pub linear : linearize index.headers ≡ some order
    pub streams :
        (k : String)
        → stream_of index.streams k ≡ of_stream k (canonical_events order (events_of T []))
    pub same_tips : index.tips ≡ compute_tips index.headers

  -- the index that is built along a canonical order
  abbrev pub index_along : List (Transaction Value) → IngestionLog → List Uuid → Index Value
  index_along T log order = record {
    headers = headers_of T [];
    by_ingestion = sort_by (λ p q. compare p.0 q.0) (built T log order).positioned;
    streams = (built T log order).streams;
    tips = compute_tips (headers_of T []);
    log = (built T log order).log;
    integrity_failures = [];
  }

  build_index-some :
      (T : List (Transaction Value)) (log : IngestionLog) (order : List Uuid)
      → linearize (headers_of T []) ≡ some order
      → build_index T log ≡ some (index_along T log order, (built T log order).new_entries)
  unfolding build_index
  build_index-some T log order e = ground arith

  pub build_index-Mirrors :
      (T : List (Transaction Value)) (log : IngestionLog) (rank : Uuid → ℕ)
      → IsDag (headers_of T []) rank
      → (index : Index Value) × (entries : List (Uuid × ℕ)) × (build_index T log
          ≡ some (index, entries))
        × Mirrors T index
  build_index-Mirrors T log rank dag =
      let (order, e, canonical) =
        linearize-IsCanonical (headers_of T []) rank dag (headers_of-IsDistinct T [] tt) in
      (
        index_along T log order,
        (built T log order).new_entries,
        build_index-some T log order e,
        record {
          same_headers = refl;
          order = order;
          linear = e;
          streams = λ k. stream_of-built T log order k (
              IsAscending-IsDistinct (compare_in-Comparison (headers_of T [])) order
                canonical.ascending);
          same_tips = refl;
        },
      )

  -- Two indexes that mirror the same transactions have the same streams, tips and headers.
  pub Mirrors-agree :
      (T : List (Transaction Value)) (index other : Index Value)
      → Mirrors T index
      → Mirrors T other
      → (index.headers ≡ other.headers)
        × (index.tips ≡ other.tips)
        × ((k : String) → stream_of index.streams k ≡ stream_of other.streams k)
  Mirrors-agree T index other g h =
      let heads : index.headers ≡ other.headers = g.same_headers ∙ sym h.same_headers in
      let lines : some g.order ≡ some h.order = sym g.linear ∙ ap linearize heads ∙ h.linear in
      let orders : g.order ≡ h.order = cc in
      (
        heads,
        g.same_tips ∙ ap compute_tips heads ∙ sym h.same_tips,
        λ k.
            g.streams k
            ∙ ap (λ (order : List Uuid). of_stream k (canonical_events order (events_of T [])))
                orders
            ∙ sym (h.streams k),
      )
