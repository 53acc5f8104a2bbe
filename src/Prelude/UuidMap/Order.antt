-- ===== src/Prelude/UuidMap/Order.antt =====
-- Sorted lists of identifiers: an ascending list is determined by what it contains.
use Prim.Native.Nat.{Ordering}
use mathlib.Core.Path.{ap₂}
use eventcore.Prelude.{
  ◌≡◌, refl, ap, ◌∙◌, inl, inr, List, [], ◌∷◌, ◌++◌, true, false, ◌||◌, arith, eqb, All, Bool-cases,
  All-map,
}
use eventcore.Prelude.Comparison.{Comparison}
use eventcore.Prelude.Sorting.{at_most, insert_by, sort_by, IsAscending, All-insert_by}
use eventcore.Prelude.UuidMap.{Uuid, contains, IsDistinct, All-contains}

module _ (cmp : Uuid → Uuid → Ordering) where
  contains-insert_by :
      (id x : Uuid) (ys : List Uuid)
      → contains id (insert_by cmp x ys) ≡ (eqb x id || contains id ys)
  unfolding insert_by contains
  contains-insert_by id x [] = refl
  contains-insert_by id x (y ∷ ys) = ground (arith, contains-insert_by id x ys)

  pub contains-sort_by :
      (id : Uuid) (xs : List Uuid) → contains id (sort_by cmp xs) ≡ contains id xs
  unfolding sort_by contains
  contains-sort_by id [] = refl
  contains-sort_by id (x ∷ xs) =
      contains-insert_by id x (sort_by cmp xs) ∙ ap (λ b. eqb x id || b) (contains-sort_by id xs)

module _ {cmp : Uuid → Uuid → Ordering} (order : Comparison cmp) where
  pub cmp_self : (x : Uuid) → cmp x x ≡ Ordering.eq
  cmp_self x = ground (arith, order.flipped x x)

  insert_by-IsAscending :
      (x : Uuid) (ys : List Uuid)
      → contains x ys ≡ false
      → IsAscending cmp ys
      → IsAscending cmp (insert_by cmp x ys)
  unfolding insert_by contains
  insert_by-IsAscending x [] n h = (tt, tt)
  insert_by-IsAscending x (y ∷ ys) n h = elim (Bool-cases (at_most cmp x y)) [
    | inl le ↦
        let below : cmp x y ≡ Ordering.lt = ground (arith, order.same x y) in
        rw le (
          (
            below,
            All-map (λ z. cmp y z ≡ Ordering.lt) (λ z. cmp x z ≡ Ordering.lt) ys
                (λ z. order.lt_trans x y z below) h.0,
          ),
          h,
        )
    | inr gt ↦
        let below : cmp y x ≡ Ordering.lt = ground (arith, order.flipped x y) in
        rw gt (
          All-insert_by cmp (λ z. cmp y z ≡ Ordering.lt) x ys below h.0,
          insert_by-IsAscending x ys (ground arith) h.1,
        )
  ]

  pub sort_by-IsAscending : (xs : List Uuid) → IsDistinct xs → IsAscending cmp (sort_by cmp xs)
  unfolding sort_by
  sort_by-IsAscending [] h = tt
  sort_by-IsAscending (x ∷ xs) h =
      insert_by-IsAscending x (sort_by cmp xs) (contains-sort_by cmp x xs ∙ h.0)
        (sort_by-IsAscending xs h.1)

  -- the head of an ascending list is not in its tail
  head_once :
      (x : Uuid) (xs : List Uuid) → All (λ y. cmp x y ≡ Ordering.lt) xs → contains x xs ≡ false
  head_once x xs h = elim (Bool-cases (contains x xs)) [
    | inl there ↦ absurd (cc (All-contains (λ y. cmp x y ≡ Ordering.lt) xs x h there, cmp_self x))
    | inr absent ↦ absent
  ]

  -- If the head of each list is in the other, the heads are equal.
  heads_agree :
      (x y : Uuid) (xs ys : List Uuid)
      → IsAscending cmp (x ∷ xs)
      → IsAscending cmp (y ∷ ys)
      → contains x (y ∷ ys) ≡ true
      → contains y (x ∷ xs) ≡ true
      → x ≡ y
  unfolding contains
  heads_agree x y xs ys hx hy p q = elim (Bool-cases (eqb y x)) [
    | inl same ↦ ground arith
    | inr other ↦
        let xy = All-contains (λ z. cmp x z ≡ Ordering.lt) xs y hx.0 (ground arith) in
        let yx = All-contains (λ z. cmp y z ≡ Ordering.lt) ys x hy.0 (ground arith) in
        absurd (cc (order.flipped x y))
  ]

  pub IsAscending-unique :
      (xs ys : List Uuid)
      → IsAscending cmp xs
      → IsAscending cmp ys
      → ((id : Uuid) → contains id xs ≡ contains id ys)
      → xs ≡ ys
  unfolding contains
  IsAscending-unique [] [] hx hy e = refl
  IsAscending-unique [] (y ∷ ys) hx hy e = absurd (ground (arith, e y))
  IsAscending-unique (x ∷ xs) [] hx hy e = absurd (ground (arith, e x))
  IsAscending-unique (x ∷ xs) (y ∷ ys) hx hy e =
      let heads = heads_agree x y xs ys hx hy (ground (arith, e x)) (ground (arith, e y)) in
      let tails =
        IsAscending-unique xs ys hx.1 hy.1
          (λ id. ground (arith, e id, head_once x xs hx.0, head_once y ys hy.0, heads)) in
      ap₂ (λ (z : Uuid) (zs : List Uuid). z ∷ zs) heads tails

  pub IsAscending-concat :
      (xs : List Uuid) (last : Uuid)
      → IsAscending cmp xs
      → All (λ x. cmp x last ≡ Ordering.lt) xs
      → IsAscending cmp (xs ++ last ∷ [])
  IsAscending-concat [] last h below = (tt, tt)
  IsAscending-concat (x ∷ xs) last h below =
      (All-concat xs h.0, IsAscending-concat xs last h.1 below.1)
    where
      All-concat :
          (ys : List Uuid)
          → All (λ y. cmp x y ≡ Ordering.lt) ys
          → All (λ y. cmp x y ≡ Ordering.lt) (ys ++ last ∷ [])
      All-concat [] g = (below.0, tt)
      All-concat (y ∷ ys) g = (g.0, All-concat ys g.1)

  pub IsAscending-IsDistinct : (xs : List Uuid) → IsAscending cmp xs → IsDistinct xs
  IsAscending-IsDistinct [] h = tt
  IsAscending-IsDistinct (x ∷ xs) h = (head_once x xs h.0, IsAscending-IsDistinct xs h.1)
