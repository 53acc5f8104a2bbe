-- ===== src/Prelude/HashMap.antt =====
-- `std::collections::HashMap` with text keys, as an association list. Rust leaves the order of
-- iteration open; the order of the list stands for it, and no statement about a map that is built
-- by `insert` depends on that order.
use Prim.Native.String.{String}
use mathlib.Core.Path.{◌≡◌, refl, ◌∙◌}
use mathlib.Core.Logic.{◌≢◌, ◌⊎◌}
use mathlib.Core.Bool.{Bool, true, false, ◌&&◌}
use mathlib.Core.Option.{Option, none, some}
use mathlib.Core.List.{List, [], ◌∷◌, ◌++◌}
use native.Mathlib.Omega.{arith}
use text.Mathlib.Text.{◌==◌}
use text.Mathlib.TextEquality.{eq_iff}
use eventcore.Prelude.Tests.{if◌then◌else◌}

abbrev pub HashMap {ℓ} : Type ℓ → Type ℓ
HashMap V = List (String × V)

module _ {ℓ} {V : Type ℓ} where
  -- `get`
  unfoldable pub lookup : String → HashMap V → Option V
  lookup key [] = none
  lookup key ((found, value) ∷ rest) = if found == key then some value else lookup key rest

  unfoldable pub remove : String → HashMap V → HashMap V
  remove key [] = []
  remove key ((found, value) ∷ rest) =
      let kept = remove key rest in if found == key then kept else (found, value) ∷ kept

  -- `contains_key`
  abbrev pub contains_key : String → HashMap V → Bool
  contains_key k m = elim (lookup k m) [ none ↦ false | some _ ↦ true ]

  -- A key that is there keeps its place.
  unfoldable pub insert : String → V → HashMap V → HashMap V
  insert key new [] = (key, new) ∷ []
  insert key new ((found, value) ∷ rest) =
      if found == key then (found, new) ∷ rest else (found, value) ∷ insert key new rest

  -- `iter().all(…)`
  unfoldable pub all : (String → V → Bool) → HashMap V → Bool
  all p [] = true
  all p ((k, v) ∷ m) = p k v && all p m

  pub lookup-nil : (k : String) → lookup k [] ≡ none
  unfolding lookup
  lookup-nil k = refl

  pub lookup-remove :
      (k j : String) (m : HashMap V) → lookup j (remove k m) ≡ (if k == j then none else lookup j m)
  unfolding lookup remove
  lookup-remove k j [] = ground arith
  lookup-remove k j ((i, w) ∷ m) =
      ground (arith, eq_iff k j, eq_iff i k, eq_iff i j, lookup-remove k j m)

  pub lookup-insert :
      (key other : String) (new : V) (m : HashMap V)
      → lookup other (insert key new m) ≡ (if key == other then some new else lookup other m)
  unfolding insert lookup
  lookup-insert key other new [] = ground arith
  lookup-insert key other new ((found, value) ∷ rest) = ground (
    arith,
    lookup-insert key other new rest,
    eq_iff found other,
    eq_iff found key,
    eq_iff key other,
  )

  pub lookup-insert_self : (k : String) (v : V) (m : HashMap V) → lookup k (insert k v m) ≡ some v
  lookup-insert_self k v m = ground (arith, lookup-insert k k v m, eq_iff k k)

  pub lookup-insert_ne :
      (k j : String) (v : V) (m : HashMap V) → k ≢ j → lookup j (insert k v m) ≡ lookup j m
  lookup-insert_ne k j v m h = ground (arith, lookup-insert k j v m, eq_iff k j)

  -- A test on every entry holds of each entry that a lookup finds.
  pub all-lookup :
      (p : String → V → Bool) (m : HashMap V) (k : String) (v : V)
      → all p m ≡ true
      → lookup k m ≡ some v
      → p k v ≡ true
  unfolding all lookup
  all-lookup p [] k v h e = cc
  all-lookup p ((j, w) ∷ m) k v h e = ground (arith, eq_iff j k, all-lookup p m k v)

pub ruleset map_laws = (lookup-nil, lookup-insert, lookup-remove)

module _ {ℓ} {V : Type ℓ} where
  -- No key stands twice.
  abbrev pub IsMap : HashMap V → Type ℓ
  IsMap [] = Unit
  IsMap ((k, _) ∷ m) = (lookup k m ≡ none) × IsMap m

  abbrev pub or_else : Option V → Option V → Option V
  or_else none o = o
  or_else (some v) o = some v

  pub lookup-append :
      (k : String) (m n : HashMap V) → lookup k (m ++ n) ≡ or_else (lookup k m) (lookup k n)
  unfolding lookup
  lookup-append k [] n = refl
  lookup-append k ((j, w) ∷ m) n = ground (arith, lookup-append k m n)

  pub insert_new :
      (k : String) (v : V) (m : HashMap V) → lookup k m ≡ none → insert k v m ≡ m ++ (k, v) ∷ []
  unfolding lookup insert
  insert_new k v [] h = refl
  insert_new k v ((j, w) ∷ m) h = ground (arith, insert_new k v m)

  pub IsMap-middle :
      (k : String) (v : V) (m n : HashMap V) → IsMap (m ++ (k, v) ∷ n) → lookup k m ≡ none
  unfolding lookup
  IsMap-middle k v [] n h = refl
  IsMap-middle k v ((j, w) ∷ m) n h =
      ground
        (arith, IsMap-middle k v m n h.1, lookup-append j m ((k, v) ∷ n), eq_iff j k, eq_iff k j)

  pub insert-IsMap : (k : String) (v : V) (m : HashMap V) → IsMap m → IsMap (insert k v m)
  unfolding insert
  insert-IsMap k v [] h = (lookup-nil k, tt)
  insert-IsMap k v ((j, w) ∷ m) h =
      ground (arith, insert-IsMap k v m h.1, lookup-insert k j v m, eq_iff k j, eq_iff j k)

module _ {ℓ} {V : Type ℓ} where
  -- Without repeated keys, a test that holds of what every lookup finds holds of every entry.
  pub all-of_lookup :
      (p : String → V → Bool) (m : HashMap V)
      → IsMap m
      → ((k : String) (v : V) → lookup k m ≡ some v → p k v ≡ true)
      → all p m ≡ true
  unfolding all
  all-of_lookup p [] h f = refl
  all-of_lookup p ((j, w) ∷ m) h f = ground (
    arith,
    f j w (unfold lookup in (ground (arith, eq_iff j j))),
    all-of_lookup p m h.1 (λ k v e. f k v (unfold lookup in (ground (arith, eq_iff j k)))),
  )

  -- A new key changes what no other lookup finds.
  pub insert_keeps :
      (k j : String) (x v : V) (m : HashMap V)
      → lookup k m ≡ none
      → lookup j m ≡ some v
      → lookup j (insert k x m) ≡ some v
  insert_keeps k j x v m h e = lookup-insert_ne k j x m (λ p. cc p) ∙ e

  -- What a lookup after an insertion finds is the new value, or was there before.
  pub insert_inv :
      (k j : String) (x v : V) (m : HashMap V)
      → lookup j (insert k x m) ≡ some v
      → ((k ≡ j) × (x ≡ v)) ⊎ (lookup j m ≡ some v)
  insert_inv k j x v m h = ground (arith, lookup-insert k j x m, eq_iff k j)
