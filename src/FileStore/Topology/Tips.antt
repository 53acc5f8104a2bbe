-- ===== src/FileStore/Topology/Tips.antt =====
-- The tips: the transactions that no other names as a parent, and why each transaction has one
-- above it.
use Prim.Native.Nat.{compare}
use eventcore.Prelude.{
  ℕ, zero, suc, ◌+◌, ◌≤◌, ◌≡◌, refl, sym, ap, subst, ◌∙◌, ◌⊎◌, inl, inr, List, [], ◌∷◌, ◌++◌,
  append_assoc, Bool, true, not, ◌&&◌, some, All, arith, eqb, eqb_iff, filter_by, filter_yes,
  filter_no, length, Bool-cases,
}
use eventcore.Prelude.Comparison.{ℕ-Comparison}
use eventcore.Prelude.Sorting.{IsAscending}
use eventcore.Prelude.UuidMap.{
  Uuid, lookup, contains, contains_key, contains-append, contains-keys, keys, values, IsDistinct,
}
use eventcore.Prelude.UuidMap.Order.{contains-sort_by, sort_by-IsAscending}
use eventcore.FileStore.Format.{TransactionHeader}
use eventcore.FileStore.Topology.{Headers, referenced, compute_tips}
use eventcore.FileStore.Topology.Depth.{IsParent, IsDag}
use eventcore.FileStore.Topology.Order.{depth_in, entries_found}
use eventcore.FileStore.Topology.Precedence.{parent_shallower}

contains-filter_by :
    (p : Uuid → Bool) (id : Uuid) (xs : List Uuid)
    → contains id (filter_by p xs) ≡ (contains id xs && p id)
unfolding contains
contains-filter_by p id [] = refl
contains-filter_by p id (x ∷ xs) = elim (Bool-cases (eqb x id)) [
  | inl same ↦
      let value : p x ≡ p id = ap p ((eqb_iff x id).0 same) in
      ground (arith, contains-filter_by p id xs, filter_yes p x xs, filter_no p x xs)
  | inr other ↦ ground (arith, contains-filter_by p id xs, filter_yes p x xs, filter_no p x xs)
]

IsDistinct-filter_by :
    (p : Uuid → Bool) (xs : List Uuid) → IsDistinct xs → IsDistinct (filter_by p xs)
IsDistinct-filter_by p [] h = tt
IsDistinct-filter_by p (x ∷ xs) h = elim (Bool-cases (p x)) [
  | inl kept ↦
      subst IsDistinct (sym (filter_yes p x xs kept))
        (ground (arith, contains-filter_by p x xs, h.0), IsDistinct-filter_by p xs h.1)
  | inr dropped ↦ subst IsDistinct (sym (filter_no p x xs dropped)) (IsDistinct-filter_by p xs h.1)
]

pub referenced-append :
    (hs ks : List TransactionHeader) → referenced (hs ++ ks) ≡ referenced hs ++ referenced ks
unfolding referenced
referenced-append [] ks = refl
referenced-append (h ∷ hs) ks =
    ap (λ ps. h.parent_transaction_ids ++ ps) (referenced-append hs ks)
    ∙ sym (append_assoc h.parent_transaction_ids (referenced hs) (referenced ks))

module _ (headers : Headers) where
  pub compute_tips-IsAscending :
      IsDistinct (keys headers) → IsAscending compare (compute_tips headers)
  unfolding compute_tips
  compute_tips-IsAscending distinct =
      sort_by-IsAscending ℕ-Comparison
        (filter_by (λ id. not (contains id (referenced (values headers)))) (keys headers))
        (IsDistinct-filter_by (λ id. not (contains id (referenced (values headers)))) (keys headers)
          distinct)

  -- The tips are the known transactions that nothing refers to.
  pub contains-compute_tips :
      (id : Uuid)
      → contains id (compute_tips headers)
        ≡ (contains_key id headers && not (contains id (referenced (values headers))))
  unfolding compute_tips
  contains-compute_tips id =
      contains-sort_by compare id
        (filter_by (λ i. not (contains i (referenced (values headers)))) (keys headers))
      ∙ contains-filter_by (λ i. not (contains i (referenced (values headers)))) id (keys headers)
      ∙ ap (λ b. b && not (contains id (referenced (values headers)))) (contains-keys id headers)

  -- The transaction `id` names `p` as its parent, be `p` there or not.
  abbrev pub Names : Uuid → Uuid → Type 0
  Names p id =
      (header : TransactionHeader) × (lookup id headers ≡ some header)
      × (contains p header.parent_transaction_ids ≡ true)

  abbrev Child : Uuid → Type 0
  Child p = (id : Uuid) × Names p id

  -- `a` is reached from `d` by going from a transaction to a parent, once or more often.
  pub data Ancestor (a : Uuid) : Uuid → Type 0 where
    parent : {d : Uuid} → Names a d → Ancestor a d
    beyond : {p d : Uuid} → Names p d → Ancestor a p → Ancestor a d

  pub Ancestor-trans : (a b c : Uuid) → Ancestor a b → Ancestor b c → Ancestor a c
  Ancestor-trans a b c x (parent n) = beyond n x
  Ancestor-trans a b c x (beyond {p = p} n y) = beyond n (Ancestor-trans a b p x y)

  referenced_inv :
      (p : Uuid) (rest : Headers)
      → All (λ (id, header). lookup id headers ≡ some header) rest
      → contains p (referenced (values rest)) ≡ true
      → Child p
  unfolding referenced
  referenced_inv p [] h there = absurd (unfold contains in cc)
  referenced_inv p ((id, header) ∷ rest) h there =
      elim (Bool-cases (contains p header.parent_transaction_ids)) [
        | inl here ↦ (id, (header, h.0, here))
        | inr absent ↦ referenced_inv p rest h.1 (
            ground
              (arith, contains-append p header.parent_transaction_ids (referenced (values rest))))
      ]

  pub names_referenced :
      (p id : Uuid) (header : TransactionHeader) (m : Headers)
      → lookup id m ≡ some header
      → contains p header.parent_transaction_ids ≡ true
      → contains p (referenced (values m)) ≡ true
  unfolding referenced lookup
  names_referenced p id header [] found there = absurd (cc)
  names_referenced p id header ((j, other) ∷ m) found there = ground (
    arith,
    names_referenced p id header m,
    contains-append p other.parent_transaction_ids (referenced (values m)),
  )

  pub known_of_Names : (p id : Uuid) → Names p id → contains_key id headers ≡ true
  known_of_Names p id (header, found, there) = ground arith

  pub IsParent-Names :
      (p id : Uuid) → Names p id → contains_key p headers ≡ true → IsParent headers p id
  IsParent-Names p id (header, found, there) known = (header, found, there, known)

module _ (headers : Headers) (rank : Uuid → ℕ) (dag : IsDag headers rank)
    (distinct : IsDistinct (keys headers)) where
  -- a tip that is the transaction or descends from it, and lies no higher
  abbrev pub TipAbove : Uuid → Type 0
  TipAbove id =
      (tip : Uuid) × (contains tip (compute_tips headers) ≡ true)
      × ((id ≡ tip) ⊎ Ancestor headers id tip)
      × (depth_in headers id ≤ depth_in headers tip)

  TipAbove-child :
      (id child : Uuid)
      → contains_key id headers ≡ true
      → Names headers id child
      → TipAbove child
      → TipAbove id
  TipAbove-child id child known names (tip, is, reaches, deep) =
      let below =
        parent_shallower headers rank dag id child (IsParent-Names headers id child names known) in
      let up : Ancestor headers id tip = elim reaches [
        | inl same ↦ subst (Ancestor headers id) same (parent names)
        | inr further ↦ Ancestor-trans headers id child tip (parent names) further
      ] in
      (tip, is, inr up, omega arith)

  TipAbove-within :
      (n : ℕ) (id : Uuid)
      → contains_key id headers ≡ true
      → length headers ≤ n + rank id
      → TipAbove id
  TipAbove-within zero id known h = absurd (omega (arith, dag.bounded id known))
  TipAbove-within (suc n) id known h =
      elim (Bool-cases (contains id (referenced (values headers)))) [
        | inl there ↦
            let (child, names) =
              referenced_inv headers id headers (entries_found headers distinct) there in
            let child_known = known_of_Names headers id child names in
            let higher = dag.falls id child (IsParent-Names headers id child names known) in
            TipAbove-child id child known names (TipAbove-within n child child_known (omega arith))
        | inr free ↦ (id, ground (arith, contains-compute_tips headers id), inl refl, omega arith)
      ]

  pub tip_above : (id : Uuid) → contains_key id headers ≡ true → TipAbove id
  tip_above id known = TipAbove-within (length headers) id known (omega arith)
