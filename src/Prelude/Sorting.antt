-- ===== src/Prelude/Sorting.antt =====
-- The stable sorts of the standard library (`sort`, `sort_by`, `sort_by_key`), as insertion sort.
-- The order of the result does not depend on the algorithm, since a stable sort has only one.
use Prim.Native.Nat.{Ordering}
use mathlib.Core.Path.{◌≡◌, refl, ◌∙◌, ap}
use mathlib.Core.Bool.{Bool, true}
use mathlib.Core.List.{List, [], ◌∷◌, map}
use mathlib.Core.Logic.{inl, inr}
use native.Mathlib.Omega.{arith}
use text.Mathlib.Text.{is_le}
use eventcore.Prelude.Tests.{if◌then◌else◌, Bool-cases}
use eventcore.Prelude.Lists.{All, All-map}
use eventcore.Prelude.Comparison.{reversed}

module _ {ℓ} {A : Type ℓ} (cmp : A → A → Ordering) where
  abbrev pub at_most : A → A → Bool
  at_most x y = is_le (cmp x y)

  unfoldable pub insert_by : A → List A → List A
  insert_by x [] = x ∷ []
  insert_by x (y ∷ ys) = let later = y ∷ insert_by x ys in if at_most x y then x ∷ y ∷ ys else later

  unfoldable pub sort_by : List A → List A
  unfolding insert_by
  sort_by [] = []
  sort_by (x ∷ xs) = insert_by x (sort_by xs)

  -- each element is at most every later one
  abbrev pub IsSorted : List A → Type ℓ
  IsSorted [] = Unit
  IsSorted (x ∷ xs) = All (λ y. at_most x y ≡ true) xs × IsSorted xs

  -- each element is below every later one
  abbrev pub IsAscending : List A → Type ℓ
  IsAscending [] = Unit
  IsAscending (x ∷ xs) = All (λ y. cmp x y ≡ Ordering.lt) xs × IsAscending xs

module _ {ℓ κ} {A : Type ℓ} (cmp : A → A → Ordering) (P : A → Type κ) where
  pub All-insert_by : (x : A) (ys : List A) → P x → All P ys → All P (insert_by cmp x ys)
  unfolding insert_by
  All-insert_by x [] p h = (p, tt)
  All-insert_by x (y ∷ ys) p h = elim (Bool-cases (at_most cmp x y)) [
    | inl le ↦ rw le (p, h)
    | inr gt ↦ rw gt (h.0, All-insert_by x ys p h.1)
  ]

  pub All-sort_by : (xs : List A) → All P xs → All P (sort_by cmp xs)
  unfolding sort_by
  All-sort_by [] h = tt
  All-sort_by (x ∷ xs) h = All-insert_by x (sort_by cmp xs) h.0 (All-sort_by xs h.1)

module _ {ℓ κ} {A : Type ℓ} {B : Type κ} (cmp : B → B → Ordering) (f : A → B) where
  insert_by-map :
      (x : A) (ys : List A)
      → insert_by cmp (f x) (map f ys) ≡ map f (insert_by (λ a b. cmp (f a) (f b)) x ys)
  unfolding insert_by
  insert_by-map x [] = refl
  insert_by-map x (y ∷ ys) = ground (arith, insert_by-map x ys)

  pub sort_by-map :
      (xs : List A) → sort_by cmp (map f xs) ≡ map f (sort_by (λ a b. cmp (f a) (f b)) xs)
  unfolding sort_by
  sort_by-map [] = refl
  sort_by-map (x ∷ xs) =
      ap (insert_by cmp (f x)) (sort_by-map xs)
      ∙ insert_by-map x (sort_by (λ a b. cmp (f a) (f b)) xs)

module _ {ℓ} {A : Type ℓ} (cmp : A → A → Ordering)
    (flipped : (a b : A) → cmp b a ≡ reversed (cmp a b))
    (at_most_trans : (a b c : A)
      → at_most cmp a b ≡ true
      → at_most cmp b c ≡ true
      → at_most cmp a c ≡ true) where
  insert_by-IsSorted : (x : A) (ys : List A) → IsSorted cmp ys → IsSorted cmp (insert_by cmp x ys)
  unfolding insert_by
  insert_by-IsSorted x [] h = (tt, tt)
  insert_by-IsSorted x (y ∷ ys) h = elim (Bool-cases (at_most cmp x y)) [
    | inl le ↦ rw le (
      (
        le,
        All-map (λ z. at_most cmp y z ≡ true) (λ z. at_most cmp x z ≡ true) ys
            (λ z. at_most_trans x y z le) h.0,
      ),
      h,
    )
    | inr gt ↦
        let below : at_most cmp y x ≡ true = ground (arith, flipped x y) in
        rw gt (
          All-insert_by cmp (λ z. at_most cmp y z ≡ true) x ys below h.0,
          insert_by-IsSorted x ys h.1,
        )
  ]

  pub sort_by-IsSorted : (xs : List A) → IsSorted cmp (sort_by cmp xs)
  unfolding sort_by
  sort_by-IsSorted [] = tt
  sort_by-IsSorted (x ∷ xs) = insert_by-IsSorted x (sort_by cmp xs) (sort_by-IsSorted xs)
