-- ===== src/Prelude/Fallible.antt =====
-- Rust's `Result`, its `?` operator as bind, and the iterator folds over it.
use mathlib.Core.Path.{◌≡◌, refl}
use mathlib.Core.Logic.{◌⊎◌, inl, inr}
use mathlib.Core.List.{List, [], ◌∷◌}

pub data Result {ℓ κ} (A : Type ℓ) (E : Type κ) : Type (ℓ ⊔ κ) where
  ok : A → Result A E
  err : E → Result A E

module _ {ℓ κ μ} {E : Type ℓ} {F : Type κ} {A : Type μ} where
  -- `Result::map_err`
  abbrev pub map_err : (E → F) → Result A E → Result A F
  map_err f (ok a) = ok a
  map_err f (err e) = err (f e)

pub Result-cases {ℓ κ} :
    {A : Type ℓ} {E : Type κ} (r : Result A E) → ((a : A) × (r ≡ ok a)) ⊎ ((e : E) × (r ≡ err e))
Result-cases (ok a) = inl (a, refl)
Result-cases (err e) = inr (e, refl)

module _ {ℓ κ μ} {E : Type μ} {Before : Type ℓ} {After : Type κ} where
  infixl 5 ◌>>=◌
  abbrev pub ◌>>=◌ : Result Before E → (Before → Result After E) → Result After E
  (err failure) >>= next = err failure
  (ok value) >>= next = next value

  -- A chain that succeeds has succeeded in each of its parts.
  pub >>=-eq-ok :
      (first : Result Before E) (next : Before → Result After E) {result : After}
      → (first >>= next) ≡ ok result
      → (value : Before) × (first ≡ ok value) × (next value ≡ ok result)
  >>=-eq-ok (err failure) next h = cc
  >>=-eq-ok (ok value) next h = (value, refl, h)

module _ {ℓ κ μ} {A : Type ℓ} {B : Type κ} {E : Type μ} where
  -- `Iterator::try_fold`
  unfoldable pub try_fold : (B → A → Result B E) → B → List A → Result B E
  try_fold f acc [] = ok acc
  try_fold f acc (x ∷ xs) = f acc x >>= λ acc'. try_fold f acc' xs
