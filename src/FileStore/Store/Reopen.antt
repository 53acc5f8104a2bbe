-- ===== src/FileStore/Store/Reopen.antt =====
-- An append leaves the index as reopening the store would build it.
use eventcore.Prelude.{
  ℕ, ◌≡◌, refl, sym, ap, subst, ◌∙◌, String, List, [], ◌∷◌, ◌++◌, append_assoc, append-nil, false,
  none, some, arith,
}
use eventcore.Prelude.UuidMap
use eventcore.Prelude.UuidMap.{
  Uuid, UuidMap, lookup, contains, contains_key, contains-keys, keys, values, IsDistinct,
  lookup-insert,
}
use eventcore.FileStore.Format.{TransactionHeader, EventEnvelope}
use eventcore.FileStore.Topology.{Headers, linearize, compute_tips, referenced}
use eventcore.FileStore.Topology.Depth.{IsDag}
use eventcore.FileStore.Topology.Order.{linearize-IsCanonical}
use eventcore.FileStore.Topology.Tips.{contains-compute_tips}
use eventcore.FileStore.Topology.Extension.{IsOnTop, extended, rank_extended, IsDag-extended}
use eventcore.FileStore.Topology.Last.{linearize-insert, compute_tips-insert}
use eventcore.FileStore.Index.{
  IndexedEvent, Index, Transaction, stream_of, push_stream, ingest_appended, indexed_all,
  headers_of, events_of,
}
use eventcore.FileStore.Index.Streams.{
  of_stream, of_stream-append, stream_of-push_stream, canonical_events,
}
use eventcore.FileStore.Store.{ingest_all, commit}
use eventcore.FileStore.Store.Mirror.{
  Mirrors, headers_of-IsDistinct, headers_of-concat, events_of-concat, canonical_events-concat,
}

module _ {Value : Type 0} where
  ingest_all_headers :
      (es : List (IndexedEvent Value)) (index : Index Value)
      → (ingest_all es index).1.headers ≡ index.headers
  unfolding ingest_all ingest_appended
  ingest_all_headers [] index = refl
  ingest_all_headers (e ∷ es) index =
      ingest_all_headers es
        (ingest_appended e (record index { streams = push_stream e index.streams })).1

  pub stream_of-ingest_all :
      (es : List (IndexedEvent Value)) (index : Index Value) (k : String)
      → stream_of (ingest_all es index).1.streams k ≡ stream_of index.streams k ++ of_stream k es
  unfolding ingest_all ingest_appended
  stream_of-ingest_all [] index k = sym (append-nil (stream_of index.streams k))
  stream_of-ingest_all (e ∷ es) index k =
      stream_of-ingest_all es
        (ingest_appended e (record index { streams = push_stream e index.streams })).1 k
      ∙ ap (λ xs. xs ++ of_stream k es) (stream_of-push_stream e index.streams k)
      ∙ append_assoc (stream_of index.streams k) (of_stream k (e ∷ [])) (of_stream k es)
      ∙ ap (λ xs. stream_of index.streams k ++ xs) (sym (of_stream-append k (e ∷ []) es))

-- A new identifier: no file has it, and no header names it.
pub record IsFresh (id : Uuid) (headers : Headers) : Type 0 where
  pub unknown : lookup id headers ≡ none
  pub unnamed : contains id (referenced (values headers)) ≡ false

IsFresh-IsOnTop :
    (header : TransactionHeader) (headers : Headers)
    → IsFresh header.transaction_id headers
    → header.parent_transaction_ids ≡ compute_tips headers
    → IsOnTop headers header.transaction_id header
IsFresh-IsOnTop header headers fresh parents = record {
  fresh = fresh.unknown;
  unnamed = fresh.unnamed;
  not_own_parent =
      ap (contains header.transaction_id) parents
      ∙ contains-compute_tips headers header.transaction_id
      ∙ ground (arith, fresh.unknown);
  above_tips = λ tip there. ap (contains tip) parents ∙ there;
}

module _ {Value : Type 0} where
  module _ (T : List (Transaction Value)) (index : Index Value) (rank : Uuid → ℕ)
      (mirrors : Mirrors T index) (dag : IsDag (headers_of T []) rank) (header : TransactionHeader)
      (envelopes : List (EventEnvelope Value)) (fresh : IsFresh header.transaction_id index.headers)
      (parents : header.parent_transaction_ids ≡ index.tips) where
    abbrev new : Uuid
    new = header.transaction_id

    top : IsOnTop index.headers new header
    top = IsFresh-IsOnTop header index.headers fresh (parents ∙ mirrors.same_tips)

    acyclic : IsDag index.headers rank
    acyclic = subst (λ (m : Headers). IsDag m rank) (sym mirrors.same_headers) dag

    distinct : IsDistinct (keys index.headers)
    distinct =
        subst (λ (m : Headers). IsDistinct (keys m)) (sym mirrors.same_headers)
          (headers_of-IsDistinct T [] tt)

    not_in_order : contains new mirrors.order ≡ false
    not_in_order =
        let (order, e, canonical) = linearize-IsCanonical index.headers rank acyclic distinct in
        let lines : some mirrors.order ≡ some order = sym mirrors.linear ∙ e in
        let same : mirrors.order ≡ order = cc in
        ap (contains new) same ∙ canonical.complete new ∙ ground (arith, fresh.unknown)

    -- the index behind the write lock
    abbrev pub committed : Index Value
    committed = (commit header (indexed_all envelopes) (new ∷ []) index).1

    committed_headers : committed.headers ≡ extended index.headers new header
    unfolding commit
    committed_headers =
        ingest_all_headers (indexed_all envelopes)
          (record index { headers = extended index.headers new header })

    committed_streams :
        (k : String)
        → stream_of committed.streams k
          ≡ stream_of index.streams k ++ of_stream k (indexed_all envelopes)
    unfolding commit
    committed_streams k =
        stream_of-ingest_all (indexed_all envelopes)
          (record index { headers = extended index.headers new header }) k

    committed_tips : committed.tips ≡ new ∷ []
    unfolding commit
    committed_tips = refl

    pub commit-Mirrors : Mirrors (T ++ (header, envelopes) ∷ []) committed
    commit-Mirrors = record {
      same_headers =
          committed_headers
          ∙ ap (UuidMap.insert new header) mirrors.same_headers
          ∙ sym (headers_of-concat T [] header envelopes);
      order = mirrors.order ++ new ∷ [];
      linear =
          ap linearize committed_headers
          ∙ linearize-insert index.headers new header top rank acyclic distinct mirrors.order
              mirrors.linear;
      streams = λ k.
          committed_streams k
          ∙ ap (λ xs. xs ++ of_stream k (indexed_all envelopes)) (mirrors.streams k)
          ∙ sym (
              of_stream-append k (canonical_events mirrors.order (events_of T []))
                (indexed_all envelopes))
          ∙ ap (of_stream k) (
              sym
                (canonical_events-concat new envelopes mirrors.order (events_of T []) not_in_order))
          ∙ ap
              (λ (m : UuidMap (List (EventEnvelope Value))).
                of_stream k (canonical_events (mirrors.order ++ new ∷ []) m))
              (sym (events_of-concat T [] header envelopes));
      same_tips =
          committed_tips
          ∙ sym (
              ap compute_tips committed_headers
              ∙ compute_tips-insert index.headers new header top rank acyclic distinct);
    }

    pub committed-IsDag :
        (next : Uuid → ℕ) × IsDag (headers_of (T ++ (header, envelopes) ∷ []) []) next
    committed-IsDag = (
      rank_extended index.headers new header top rank acyclic,
      subst (λ (m : Headers). IsDag m (rank_extended index.headers new header top rank acyclic))
          (ap (UuidMap.insert new header) mirrors.same_headers
            ∙ sym (headers_of-concat T [] header envelopes))
          (IsDag-extended index.headers new header top rank acyclic),
    )
