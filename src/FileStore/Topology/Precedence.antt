-- ===== src/FileStore/Topology/Precedence.antt =====
-- In the canonical order a transaction comes after all its ancestors.
use Prim.Native.Nat.{Ordering}
use eventcore.Prelude.{
  ℕ, suc, ◌<◌, ◌≡◌, ◌∙◌, inl, inr, List, [], ◌∷◌, true, some, arith, eqb, eqb_iff, if◌then◌else◌,
  Bool-cases,
}
use eventcore.Prelude.Sorting.{IsAscending}
use eventcore.Prelude.Comparison.{Comparison}
use eventcore.Prelude.UuidMap.{
  Uuid, contains, contains_key, contains_inv, keys, IsDistinct, All-contains,
}
use eventcore.Prelude.UuidMap.Order.{cmp_self}
use eventcore.FileStore.Topology.{Headers, Key, compare_key, linearize}
use eventcore.FileStore.Topology.Depth.{IsParent, step, IsDag}
use eventcore.FileStore.Topology.Order.{
  depth_in, key_of, compare_in, compare_in-Comparison, depth_in-IsDepth, linearize-IsCanonical,
}

-- the index of the first occurrence
unfoldable pub position : Uuid → List Uuid → ℕ
position id [] = 0
position id (x ∷ xs) = if eqb x id then 0 else suc (position id xs)

position-lt :
    (cmp : Uuid → Uuid → Ordering) (order : Comparison cmp) (p q : Uuid) (xs : List Uuid)
    → IsAscending cmp xs
    → contains p xs ≡ true
    → contains q xs ≡ true
    → cmp p q ≡ Ordering.lt
    → position p xs < position q xs
unfolding position contains
position-lt cmp order p q [] h there there' below = absurd (cc)
position-lt cmp order p q (x ∷ xs) h there there' below = elim (Bool-cases (eqb x q)) [
  | inl last ↦
      let same : x ≡ q = (eqb_iff x q).0 last in
      let self : cmp q q ≡ Ordering.eq = cmp_self order q in
      elim (contains_inv p x xs there) [
        | inl first ↦ absurd (cc)
        | inr later ↦
            let above = All-contains (λ y. cmp x y ≡ Ordering.lt) xs p h.0 later in
            absurd (cc (order.flipped p q))
      ]
  | inr other ↦ elim (Bool-cases (eqb x p)) [
    | inl first ↦ ground arith
    | inr later ↦
        let rest = position-lt cmp order p q xs h.1 (ground arith) (ground arith) below in
        ground arith
  ]
]

shallower_key : (k l : Key) → k.0 < l.0 → compare_key k l ≡ Ordering.lt
shallower_key k l h = ground arith

module _ (headers : Headers) where
  key_depth :
      (id : Uuid) → contains_key id headers ≡ true → (key_of headers id).0 ≡ depth_in headers id
  key_depth id known = ground arith

  pub shallower_first :
      (p id : Uuid)
      → contains_key p headers ≡ true
      → contains_key id headers ≡ true
      → depth_in headers p < depth_in headers id
      → compare_in headers p id ≡ Ordering.lt
  shallower_first p id known known' below =
      shallower_key (key_of headers p) (key_of headers id)
        (rw (key_depth p known) (rw (key_depth id known') below))

  pub parent_known : (p id : Uuid) → IsParent headers p id → contains_key id headers ≡ true
  parent_known p id (header, found, there, known) = ground arith

  pub parent_shallower :
      (rank : Uuid → ℕ) (dag : IsDag headers rank) (p id : Uuid)
      → IsParent headers p id
      → depth_in headers p < depth_in headers id
  parent_shallower rank dag p id parent =
      let old = depth_in-IsDepth headers rank dag p parent.3 in
      let new = depth_in-IsDepth headers rank dag id (parent_known p id parent) in
      new.longest (suc (depth_in headers p)) (step parent old.reached)

  -- When no transaction is its own ancestor, linearizing returns: the order holds every known
  -- transaction and nothing else, and each known parent comes before its children.
  pub linearize_topological :
      (rank : Uuid → ℕ) (dag : IsDag headers rank)
      → IsDistinct (keys headers)
      → (order : List Uuid) × (linearize headers ≡ some order)
        × ((id : Uuid) → contains id order ≡ contains_key id headers)
        × ((p id : Uuid) → IsParent headers p id → position p order < position id order)
  linearize_topological rank dag distinct =
      let (order, e, canonical) = linearize-IsCanonical headers rank dag distinct in
      (
        order,
        e,
        canonical.complete,
        λ p id parent.
            let known = parent_known p id parent in
            position-lt (compare_in headers) (compare_in-Comparison headers) p id order
              canonical.ascending (canonical.complete p ∙ parent.3) (canonical.complete id ∙ known)
              (shallower_first p id parent.3 known (parent_shallower rank dag p id parent)),
      )
