-- ===== src/Execute/Flow.antt =====
-- Computations in a world that may fail with a `CommandError`, panic, or use up the fuel that the
-- model gives them.
use eventcore.Prelude.{◌≡◌, refl, Result, ok, err}
use eventcore.Types.Error.{CommandError}

pub data Flow {ℓ} (A : Type ℓ) : Type ℓ where
  yields : A → Flow A
  fails : CommandError → Flow A
  crashed : Flow A
  out_of_fuel : Flow A

-- An `async fn` that returns a `Result`.
abbrev pub Async {ℓ} : Type 0 → Type ℓ → Type ℓ
Async W A = W → Flow A × W

module _ {ℓ} {W : Type 0} {A : Type ℓ} where
  abbrev pub pure : A → Async W A
  pure a w = (yields a, w)

  -- A pure call that may fail.
  abbrev pub lift : Result A CommandError → Async W A
  lift (ok a) w = (yields a, w)
  lift (err e) w = (fails e, w)

  abbrev pub crash : Async W A
  crash w = (crashed, w)

  abbrev pub exhaust : Async W A
  exhaust w = (out_of_fuel, w)

module _ {ℓ κ} {W : Type 0} {A : Type ℓ} {B : Type κ} where
  abbrev pub go_on : (A → Async W B) → Flow A × W → Flow B × W
  go_on k (yields a, w) = k a w
  go_on k (fails e, w) = (fails e, w)
  go_on k (crashed, w) = (crashed, w)
  go_on k (out_of_fuel, w) = (out_of_fuel, w)

  infixl 5 ◌>>=◌
  abbrev pub ◌>>=◌ : Async W A → (A → Async W B) → Async W B
  m >>= k = λ w. go_on k (m w)

  -- A chain that yields has yielded in each of its parts.
  pub go_on-yields :
      (k : A → Async W B) (q : Flow A × W) (b : B) (w : W)
      → go_on k q ≡ (yields b, w)
      → (a : A) × (v : W) × (q ≡ (yields a, v)) × (k a v ≡ (yields b, w))
  go_on-yields k (yields a, v) b w h = (a, v, refl, h)
  go_on-yields k (fails e, v) b w h = absurd (cc)
  go_on-yields k (crashed, v) b w h = absurd (cc)
  go_on-yields k (out_of_fuel, v) b w h = absurd (cc)

module _ {ℓ} {W : Type 0} {A : Type ℓ} where
  pub lift-yields :
      (r : Result A CommandError) (v w : W) (a : A)
      → lift r v ≡ (yields a, w)
      → (r ≡ ok a) × (v ≡ w)
  lift-yields (ok a) v w b h = (cc, cc)
  lift-yields (err e) v w b h = absurd (cc)
