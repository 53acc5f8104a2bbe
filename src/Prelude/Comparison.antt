-- ===== src/Prelude/Comparison.antt =====
-- `Ord::cmp` of the standard library: comparisons of numbers, of texts and of tuples.
use Prim.Native.Nat.{compare, Ordering}
use Prim.Native.Char.{code}
use Prim.Native.String
use Prim.Native.String.compare as compare_text
use Prim.Native.String.{String, then}
use mathlib.Core.Path.{◌≡◌, refl, sym, ◌∙◌, ap, ap₂}
use mathlib.Core.Logic.{◌⊎◌, inl, inr}
use native.Mathlib.Omega.{arith}
use text.Mathlib.TextEquality.{path_by_compare}

-- `Ordering::reverse`
abbrev pub reversed : Ordering → Ordering
reversed Ordering.lt = Ordering.gt
reversed Ordering.eq = Ordering.eq
reversed Ordering.gt = Ordering.lt

-- A total order, given by its three-way comparison.
pub record Comparison {ℓ} {A : Type ℓ} (cmp : A → A → Ordering) : Type ℓ where
  pub same : (a b : A) → cmp a b ≡ Ordering.eq → a ≡ b
  pub flipped : (a b : A) → cmp b a ≡ reversed (cmp a b)
  pub lt_trans : (a b c : A) → cmp a b ≡ Ordering.lt → cmp b c ≡ Ordering.lt → cmp a c ≡ Ordering.lt

pub ℕ-Comparison : Comparison compare
ℕ-Comparison = record {
  same = λ a b h. ground arith;
  flipped = λ a b. ground arith;
  lt_trans = λ a b c p q. ground arith;
}

then-reversed : (o p : Ordering) → then (reversed o) (reversed p) ≡ reversed (then o p)
then-reversed Ordering.lt p = refl
then-reversed Ordering.eq p = refl
then-reversed Ordering.gt p = refl

compare-flipped : (s t : String) → String.compare t s ≡ reversed (String.compare s t)
compare-flipped String.[] String.[] = rw compare_text.nil-nil refl
compare-flipped String.[] (String.◌∷◌ d t) =
    rw (compare_text.nil-cons d t) (compare_text.cons-nil d t)
compare-flipped (String.◌∷◌ c s) String.[] =
    rw (compare_text.cons-nil c s) (compare_text.nil-cons c s)
compare-flipped (String.◌∷◌ c s) (String.◌∷◌ d t) =
    compare_text.cons-cons d c t s
    ∙ ap₂ then (ℕ-Comparison.flipped (code c) (code d)) (compare-flipped s t)
    ∙ then-reversed (compare (code c) (code d)) (String.compare s t)
    ∙ ap reversed (sym (compare_text.cons-cons c d s t))

then-lt :
    (o p : Ordering)
    → then o p ≡ Ordering.lt
    → (o ≡ Ordering.lt) ⊎ (o ≡ Ordering.eq) × (p ≡ Ordering.lt)
then-lt Ordering.lt p h = inl refl
then-lt Ordering.eq p h = inr (refl, h)
then-lt Ordering.gt p h = absurd (cc)

then-eq : (o p : Ordering) → then o p ≡ Ordering.eq → (o ≡ Ordering.eq) × (p ≡ Ordering.eq)
then-eq Ordering.lt p h = absurd (cc)
then-eq Ordering.eq p h = (refl, h)
then-eq Ordering.gt p h = absurd (cc)

module _ {ℓ} {A : Type ℓ} {cmp : A → A → Ordering} (order : Comparison cmp) where
  then-lt_trans :
      (a b c : A) (x y z : Ordering)
      → (x ≡ Ordering.lt → y ≡ Ordering.lt → z ≡ Ordering.lt)
      → then (cmp a b) x ≡ Ordering.lt
      → then (cmp b c) y ≡ Ordering.lt
      → then (cmp a c) z ≡ Ordering.lt
  then-lt_trans a b c x y z f p q = elim (then-lt (cmp a b) x p) [
    | inl ab ↦ elim (then-lt (cmp b c) y q) [
      | inl bc ↦ rw (order.lt_trans a b c ab bc) refl
      | inr (bc, yl) ↦ rw (← order.same b c bc) (rw ab refl)
    ]
    | inr (ab, xl) ↦ elim (then-lt (cmp b c) y q) [
      | inl bc ↦ rw (order.same a b ab) (rw bc refl)
      | inr (bc, yl) ↦ rw (order.same a b ab) (rw bc (f xl yl))
    ]
  ]

compare-lt_trans :
    (s t u : String)
    → String.compare s t ≡ Ordering.lt
    → String.compare t u ≡ Ordering.lt
    → String.compare s u ≡ Ordering.lt
compare-lt_trans String.[] String.[] String.[] p q = p
compare-lt_trans String.[] (String.◌∷◌ d t) String.[] p q = absurd (cc (compare_text.cons-nil d t))
compare-lt_trans String.[] t (String.◌∷◌ e u) p q = compare_text.nil-cons e u
compare-lt_trans (String.◌∷◌ c s) String.[] u p q = absurd (cc (compare_text.cons-nil c s))
compare-lt_trans (String.◌∷◌ c s) (String.◌∷◌ d t) String.[] p q =
    absurd (cc (compare_text.cons-nil d t))
compare-lt_trans (String.◌∷◌ c s) (String.◌∷◌ d t) (String.◌∷◌ e u) p q =
    compare_text.cons-cons c e s u
    ∙ then-lt_trans ℕ-Comparison (code c) (code d) (code e) (String.compare s t)
        (String.compare t u) (String.compare s u) (compare-lt_trans s t u)
        (sym (compare_text.cons-cons c d s t) ∙ p) (sym (compare_text.cons-cons d e t u) ∙ q)

pub String-Comparison : Comparison String.compare
String-Comparison = record {
  same = path_by_compare;
  flipped = compare-flipped;
  lt_trans = compare-lt_trans;
}

module _ {ℓ κ} {A : Type ℓ} {B : Type κ} (first : A → A → Ordering)
    (second : B → B → Ordering) where
  -- the lexicographic comparison of pairs
  abbrev pub lexicographic : A × B → A × B → Ordering
  lexicographic p q = then (first p.0 q.0) (second p.1 q.1)

  pub lexicographic-Comparison : Comparison first → Comparison second → Comparison lexicographic
  lexicographic-Comparison f s = record {
    same = λ p q h.
        let (e, e') = then-eq (first p.0 q.0) (second p.1 q.1) h in
        ap₂ (λ (a : A) (b : B). (a, b)) (f.same p.0 q.0 e) (s.same p.1 q.1 e');
    flipped = λ p q.
        ap₂ then (f.flipped p.0 q.0) (s.flipped p.1 q.1)
        ∙ then-reversed (first p.0 q.0) (second p.1 q.1);
    lt_trans = λ p q r g h.
        then-lt_trans f p.0 q.0 r.0 (second p.1 q.1) (second q.1 r.1) (second p.1 r.1)
          (s.lt_trans p.1 q.1 r.1) g h;
  }
