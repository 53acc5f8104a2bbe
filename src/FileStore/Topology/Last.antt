-- ===== src/FileStore/Topology/Last.antt =====
-- A transaction on top of all tips comes last in the canonical order and becomes the only tip.
use Prim.Native.Nat.{Ordering}
use mathlib.Core.Path.{ap₂}
use eventcore.Prelude.{
  ℕ, ◌≡◌, refl, sym, ap, subst, ◌∙◌, inl, inr, List, [], ◌∷◌, ◌++◌, append-nil, true, false, not,
  ◌&&◌, ◌||◌, some, arith, eqb, eqb_iff, Bool-cases, Option-cases,
}
use eventcore.Prelude.Comparison.{ℕ-Comparison}
use eventcore.Prelude.UuidMap
use eventcore.Prelude.UuidMap.{
  Uuid, UuidMap, lookup, insert_new, contains, contains_key, contains-append, contains-keys, keys,
  values, IsDistinct, All-of_contains,
}
use eventcore.Prelude.UuidMap.Order.{IsAscending-concat, IsAscending-unique}
use eventcore.FileStore.Format.{TransactionHeader}
use eventcore.FileStore.Topology.{Headers, compare_key, compute_tips, referenced, linearize}
use eventcore.FileStore.Topology.Depth.{IsDag}
use eventcore.FileStore.Topology.Order.{
  compare_in, compare_in-Comparison, IsCanonical, IsCanonical-unique, linearize-IsCanonical,
}
use eventcore.FileStore.Topology.Precedence.{shallower_first, parent_shallower}
use eventcore.FileStore.Topology.Tips.{
  tip_above, contains-compute_tips, compute_tips-IsAscending, referenced-append,
}
use eventcore.FileStore.Topology.Extension.{
  IsAscending-agree, IsOnTop, extended, rank_extended, IsDag-extended, old_key, old_depth,
  known_still, known_in_extended, lookup-new,
}

IsDistinct-concat :
    (xs : List Uuid) (x : Uuid) → IsDistinct xs → contains x xs ≡ false → IsDistinct (xs ++ x ∷ [])
unfolding contains
IsDistinct-concat [] x h absent = (refl, tt)
IsDistinct-concat (y ∷ ys) x h absent =
    (ground (arith, contains-append y ys (x ∷ [])), IsDistinct-concat ys x h.1 (ground arith))

keys_concat :
    (m : Headers) (id : Uuid) (header : TransactionHeader)
    → keys (m ++ (id, header) ∷ []) ≡ keys m ++ id ∷ []
keys_concat [] id header = refl
keys_concat ((j, h) ∷ m) id header = ap (λ xs. j ∷ xs) (keys_concat m id header)

values_concat :
    (m : Headers) (id : Uuid) (header : TransactionHeader)
    → values (m ++ (id, header) ∷ []) ≡ values m ++ header ∷ []
values_concat [] id header = refl
values_concat ((j, h) ∷ m) id header = ap (λ xs. h ∷ xs) (values_concat m id header)

keys_kept :
    (id : Uuid) (header old : TransactionHeader) (m : Headers)
    → lookup id m ≡ some old
    → keys (UuidMap.insert id header m) ≡ keys m
unfolding lookup UuidMap.insert
keys_kept id header old [] h = absurd (cc)
keys_kept id header old ((j, w) ∷ m) h = ground (arith, keys_kept id header old m)

pub insert-IsDistinct :
    (id : Uuid) (header : TransactionHeader) (m : Headers)
    → IsDistinct (keys m)
    → IsDistinct (keys (UuidMap.insert id header m))
insert-IsDistinct id header m h = elim (Option-cases (lookup id m)) [
  | inl fresh ↦
      subst IsDistinct (sym (ap keys (insert_new id header m fresh) ∙ keys_concat m id header))
        (IsDistinct-concat (keys m) id h (ground (arith, contains-keys id m)))
  | inr (old, found) ↦ subst IsDistinct (sym (keys_kept id header old m found)) h
]

module _ (headers : Headers) (new : Uuid) (header : TransactionHeader)
    (top : IsOnTop headers new header) (rank : Uuid → ℕ) (dag : IsDag headers rank)
    (distinct : IsDistinct (keys headers)) where
  pub keys-extended : keys (extended headers new header) ≡ keys headers ++ new ∷ []
  keys-extended = ap keys (insert_new new header headers top.fresh) ∙ keys_concat headers new header

  pub IsDistinct-extended : IsDistinct (keys (extended headers new header))
  IsDistinct-extended = subst IsDistinct (sym keys-extended) (
      IsDistinct-concat (keys headers) new distinct
        (ground (arith, contains-keys new headers, top.fresh)))

  -- Every other transaction lies below some tip, and so below the new one.
  new_last :
      (id : Uuid)
      → contains_key id headers ≡ true
      → compare_in (extended headers new header) id new ≡ Ordering.lt
  new_last id known =
      let (tip, is, reaches, deep) = tip_above headers rank dag distinct id known in
      let tip_known : contains_key tip headers ≡ true =
        ground (arith, contains-compute_tips headers tip) in
      let below =
        parent_shallower (extended headers new header)
          (rank_extended headers new header top rank dag)
          (IsDag-extended headers new header top rank dag) tip new
          (
            header,
            lookup-new headers new header top,
            top.above_tips tip is,
            known_still headers new header top tip tip_known,
          ) in
      shallower_first (extended headers new header) id new
        (known_still headers new header top id known)
        (ground (arith, lookup-new headers new header top))
        (omega (
          arith,
          old_depth headers new header top rank dag id known,
          old_depth headers new header top rank dag tip tip_known,
        ))

  extended-IsCanonical :
      (order : List Uuid)
      → IsCanonical headers order
      → IsCanonical (extended headers new header) (order ++ new ∷ [])
  extended-IsCanonical order h = record {
    ascending =
        IsAscending-concat (compare_in-Comparison (extended headers new header)) order new
          (IsAscending-agree (compare_in headers) (compare_in (extended headers new header)) order
            (λ a b there there'.
              ap₂ compare_key
                (sym (old_key headers new header top rank dag a (sym (h.complete a) ∙ there)))
                (sym (old_key headers new header top rank dag b (sym (h.complete b) ∙ there'))))
            h.ascending)
          (All-of_contains (λ x. compare_in (extended headers new header) x new ≡ Ordering.lt) order
            (λ id there. new_last id (sym (h.complete id) ∙ there)));
    complete = λ id.
        unfold contains in
        (ground (
          arith,
          contains-append id order (new ∷ []),
          h.complete id,
          known_in_extended headers new header top id,
        ));
  }

  -- Adding a transaction on top of all tips adds it at the end of the canonical order.
  pub linearize-insert :
      (order : List Uuid)
      → linearize headers ≡ some order
      → linearize (extended headers new header) ≡ some (order ++ new ∷ [])
  linearize-insert order e =
      let (order', e', canonical) = linearize-IsCanonical headers rank dag distinct in
      let (after, e'', canonical') =
        linearize-IsCanonical (extended headers new header)
          (rank_extended headers new header top rank dag)
          (IsDag-extended headers new header top rank dag) IsDistinct-extended in
      let same : order ≡ order' = cc in
      e''
      ∙ ap some (
          IsCanonical-unique (extended headers new header) after (order ++ new ∷ []) canonical'
            (extended-IsCanonical order (subst (IsCanonical headers) (sym same) canonical)))

  pub values-extended : values (extended headers new header) ≡ values headers ++ header ∷ []
  values-extended =
      ap values (insert_new new header headers top.fresh) ∙ values_concat headers new header

  referenced-extended :
      (id : Uuid)
      → contains id (referenced (values (extended headers new header)))
        ≡ (contains id (referenced (values headers)) || contains id header.parent_transaction_ids)
  referenced-extended id =
      ap (λ hs. contains id (referenced hs)) values-extended
      ∙ ap (contains id) (referenced-append (values headers) (header ∷ []))
      ∙ contains-append id (referenced (values headers)) (referenced (header ∷ []))
      ∙ ap (λ b. contains id (referenced (values headers)) || b)
          (unfold referenced in (ap (contains id) (append-nil header.parent_transaction_ids)))

  tip_is_new :
      (id : Uuid)
      → (contains_key id (extended headers new header)
          && not (contains id (referenced (values (extended headers new header)))))
        ≡ contains id (new ∷ [])
  unfolding contains
  tip_is_new id = elim (Bool-cases (eqb new id)) [
    | inl same ↦
        let e : new ≡ id = (eqb_iff new id).0 same in
        subst
          (λ (i : Uuid).
            (contains_key i (extended headers new header)
              && not (contains i (referenced (values (extended headers new header)))))
            ≡ contains i (new ∷ []))
          e
          (ground (
            arith,
            known_in_extended headers new header top new,
            referenced-extended new,
            top.unnamed,
            top.not_own_parent,
          ))
    | inr other ↦ ground (
      arith,
      known_in_extended headers new header top id,
      referenced-extended id,
      contains-compute_tips headers id,
      top.above_tips id,
    )
  ]

  -- It is then the only tip.
  pub compute_tips-insert : compute_tips (extended headers new header) ≡ new ∷ []
  compute_tips-insert =
      IsAscending-unique ℕ-Comparison (compute_tips (extended headers new header)) (new ∷ [])
        (compute_tips-IsAscending (extended headers new header) IsDistinct-extended) (tt, tt)
        (λ id. contains-compute_tips (extended headers new header) id ∙ tip_is_new id)
