-- ===== src/FileStore/Topology/Extension.antt =====
-- A transaction on top of all tips: it comes last in the canonical order and is the only tip.
use Prim.Native.Nat.{Ordering}
use eventcore.Prelude.{
  ℕ, zero, suc, ◌<◌, ◌≡◌, sym, ap, subst, ◌∙◌, inl, inr, List, [], ◌∷◌, true, false, ◌||◌, none,
  some, arith, eqb, eqb_iff, length, length-append, if◌then◌else◌, Bool-cases,
}
use eventcore.Prelude.Sorting.{IsAscending}
use eventcore.Prelude.UuidMap
use eventcore.Prelude.UuidMap.{
  Uuid, UuidMap, lookup, lookup-insert, insert_new, contains, contains_key, contains-append,
  contains_tail, contains_head, keys, values, IsDistinct, All-contains, All-of_contains,
}
use eventcore.FileStore.Format.{TransactionHeader}
use eventcore.FileStore.Topology.{Headers, referenced, compute_tips}
use eventcore.FileStore.Topology.Depth.{IsParent, Chain, stop, step, IsDepth-unique, IsDag}
use eventcore.FileStore.Topology.Order.{depth_in, key_of, depth_in-IsDepth}
use eventcore.FileStore.Topology.Tips.{names_referenced}

pub IsAscending-agree :
    (cmp other : Uuid → Uuid → Ordering) (xs : List Uuid)
    → ((a b : Uuid) → contains a xs ≡ true → contains b xs ≡ true → cmp a b ≡ other a b)
    → IsAscending cmp xs
    → IsAscending other xs
IsAscending-agree cmp other [] agree h = tt
IsAscending-agree cmp other (x ∷ xs) agree h = (
  All-of_contains (λ y. other x y ≡ Ordering.lt) xs
      (λ y there.
        sym (agree x y (contains_head x xs) (contains_tail y x xs there))
        ∙ All-contains (λ z. cmp x z ≡ Ordering.lt) xs y h.0 there),
  IsAscending-agree cmp other xs
      (λ a b there there'. agree a b (contains_tail a x xs there) (contains_tail b x xs there'))
      h.1,
)

-- A new header that has every tip among its parents, for a transaction that nothing refers to yet.
pub record IsOnTop (headers : Headers) (new : Uuid) (header : TransactionHeader) : Type 0 where
  pub fresh : lookup new headers ≡ none
  pub unnamed : contains new (referenced (values headers)) ≡ false
  pub not_own_parent : contains new header.parent_transaction_ids ≡ false
  pub above_tips :
      (tip : Uuid)
      → contains tip (compute_tips headers) ≡ true
      → contains tip header.parent_transaction_ids ≡ true

module _ (headers : Headers) (new : Uuid) (header : TransactionHeader) where
  abbrev pub extended : Headers
  extended = UuidMap.insert new header headers

module _ (headers : Headers) (new : Uuid) (header : TransactionHeader)
    (top : IsOnTop headers new header) where
  abbrev after : Headers
  after = extended headers new header

  pub lookup-new : lookup new after ≡ some header
  lookup-new = ground (arith, lookup-insert new new header headers)

  pub lookup_old : (id : Uuid) → eqb new id ≡ false → lookup id after ≡ lookup id headers
  lookup_old id h = ground (arith, lookup-insert new id header headers)

  pub known_is_old : (id : Uuid) → contains_key id headers ≡ true → eqb new id ≡ false
  known_is_old id known = elim (Bool-cases (eqb new id)) [
    | inl same ↦
        let e : new ≡ id = (eqb_iff new id).0 same in
        absurd
          (ground (arith, top.fresh, subst (λ (i : Uuid). lookup i headers ≡ none) e top.fresh))
    | inr other ↦ other
  ]

  pub known_still : (id : Uuid) → contains_key id headers ≡ true → contains_key id after ≡ true
  known_still id known = ground (arith, lookup_old id (known_is_old id known))

  pub known_in_extended :
      (id : Uuid) → contains_key id after ≡ (eqb new id || contains_key id headers)
  known_in_extended id = ground (arith, lookup-insert new id header headers)

  unnamed_parent :
      (p id : Uuid) (h : TransactionHeader)
      → lookup id headers ≡ some h
      → contains p h.parent_transaction_ids ≡ true
      → eqb new p ≡ false
  unnamed_parent p id h found there = elim (Bool-cases (eqb new p)) [
    | inl same ↦
        let e : p ≡ new = sym ((eqb_iff new p).0 same) in
        let named = names_referenced headers p id h headers found there in
        absurd (
          cc (
            top.unnamed,
            subst (λ (i : Uuid). contains i (referenced (values headers)) ≡ true) e named,
          ))
    | inr other ↦ other
  ]

  old-IsParent : (p id : Uuid) → eqb new id ≡ false → IsParent after p id → IsParent headers p id
  old-IsParent p id old (h, found, there, known) =
      let found' = sym (lookup_old id old) ∙ found in
      let distinct = unnamed_parent p id h found' there in
      (h, found', there, ground (arith, known_in_extended p))

  still-IsParent : (p id : Uuid) → IsParent headers p id → IsParent after p id
  still-IsParent p id (h, found, there, known) =
      (h, lookup_old id (known_is_old id (ground arith)) ∙ found, there, known_still p known)

  chain_back :
      (id : Uuid) (n : ℕ) → contains_key id headers ≡ true → Chain after id n → Chain headers id n
  chain_back id zero known stop = stop
  chain_back id (suc n) known (step {p = p} parent c) =
      let old = old-IsParent p id (known_is_old id known) parent in
      step old (chain_back p n old.3 c)

  chain_still : (id : Uuid) (n : ℕ) → Chain headers id n → Chain after id n
  chain_still id zero stop = stop
  chain_still id (suc n) (step {p = p} parent c) =
      step (still-IsParent p id parent) (chain_still p n c)

module _ (headers : Headers) (new : Uuid) (header : TransactionHeader)
    (top : IsOnTop headers new header) (rank : Uuid → ℕ) (dag : IsDag headers rank) where
  -- the new transaction ranks above all others
  abbrev pub rank_extended : Uuid → ℕ
  rank_extended id = if eqb new id then length headers else rank id

  other_parent : (p : Uuid) → contains p header.parent_transaction_ids ≡ true → eqb new p ≡ false
  other_parent p listed = elim (Bool-cases (eqb new p)) [
    | inl same ↦
        let e : p ≡ new = sym ((eqb_iff new p).0 same) in
        absurd (
          cc (
            top.not_own_parent,
            subst (λ (i : Uuid). contains i header.parent_transaction_ids ≡ true) e listed,
          ))
    | inr other ↦ other
  ]

  length-extended : length (extended headers new header) ≡ suc (length headers)
  length-extended =
      ap length (insert_new new header headers top.fresh)
      ∙ length-append headers ((new, header) ∷ [])
      ∙ omega arith

  extended_falls :
      (p id : Uuid)
      → IsParent (extended headers new header) p id
      → rank_extended p < rank_extended id
  extended_falls p id (h, found, there, known) = elim (Bool-cases (eqb new id)) [
    | inl same ↦
        let e : id ≡ new = sym ((eqb_iff new id).0 same) in
        let own : h ≡ header = cc (
          lookup-new headers new header top,
          subst (λ (i : Uuid). lookup i (extended headers new header) ≡ some h) e found,
        ) in
        let listed : contains p header.parent_transaction_ids ≡ true =
          subst (λ (x : TransactionHeader). contains p x.parent_transaction_ids ≡ true) own there in
        let other = other_parent p listed in
        ground (arith, known_in_extended headers new header top p, dag.bounded p)
    | inr old ↦
        let parent = old-IsParent headers new header top p id old (h, found, there, known) in
        let p_old = known_is_old headers new header top p parent.3 in
        ground (arith, dag.falls p id parent)
  ]

  pub IsDag-extended : IsDag (extended headers new header) rank_extended
  IsDag-extended = record {
    bounded = λ id known.
        ground
          (arith, length-extended, known_in_extended headers new header top id, dag.bounded id);
    falls = extended_falls;
  }

  pub old_depth :
      (id : Uuid)
      → contains_key id headers ≡ true
      → depth_in (extended headers new header) id ≡ depth_in headers id
  old_depth id known =
      let was = depth_in-IsDepth headers rank dag id known in
      IsDepth-unique (extended headers new header) id (depth_in (extended headers new header) id)
        (depth_in headers id)
        (depth_in-IsDepth (extended headers new header) rank_extended IsDag-extended id
          (known_still headers new header top id known))
        (record {
          reached = chain_still headers new header top id (depth_in headers id) was.reached;
          longest = λ n c. was.longest n (chain_back headers new header top id n known c);
        })

  pub old_key :
      (id : Uuid)
      → contains_key id headers ≡ true
      → key_of (extended headers new header) id ≡ key_of headers id
  old_key id known =
      let depths = old_depth id known in
      let old =
        lookup_old headers new header top id (known_is_old headers new header top id known) in
      ground arith
