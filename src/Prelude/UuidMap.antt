-- ===== src/Prelude/UuidMap.antt =====
-- `Uuid` as the 128-bit number that its bytes write, which is how `Ord` compares it, with
-- `HashMap<Uuid, _>` as an association list and `HashSet<Uuid>` as a list. The order of a list
-- stands for the order of iteration, which Rust leaves open.
pub mod Order
use Prim.Native.Nat.{ℕ, suc, ◌+◌, ◌≤◌, ◌<◌}
use mathlib.Core.Path.{◌≡◌, refl, subst}
use mathlib.Core.Logic.{◌⊎◌, inl, inr}
use mathlib.Core.Bool.{Bool, true, false, ◌||◌, ◌&&◌}
use mathlib.Core.Option.{Option, none, some}
use mathlib.Core.List.{List, [], ◌∷◌, ◌++◌, map}
use native.Mathlib.Omega.{arith}
use eventcore.Prelude.Tests.{eqb, eqb_iff, if◌then◌else◌, Bool-cases}
use eventcore.Prelude.Lists.{All, length}

abbrev pub Uuid : Type 0
Uuid = ℕ

unfoldable pub contains : Uuid → List Uuid → Bool
contains id [] = false
contains id (x ∷ xs) = eqb x id || contains id xs

-- no identifier stands twice
abbrev pub IsDistinct : List Uuid → Type 0
IsDistinct [] = Unit
IsDistinct (x ∷ xs) = (contains x xs ≡ false) × IsDistinct xs

pub contains-append :
    (id : Uuid) (xs ys : List Uuid) → contains id (xs ++ ys) ≡ (contains id xs || contains id ys)
unfolding contains
contains-append id [] ys = refl
contains-append id (x ∷ xs) ys = ground (arith, contains-append id xs ys)

pub contains_head : (x : Uuid) (xs : List Uuid) → contains x (x ∷ xs) ≡ true
unfolding contains
contains_head x xs = ground arith

pub contains_tail :
    (id x : Uuid) (xs : List Uuid) → contains id xs ≡ true → contains id (x ∷ xs) ≡ true
unfolding contains
contains_tail id x xs h = ground arith

pub contains_inv :
    (id x : Uuid) (xs : List Uuid)
    → contains id (x ∷ xs) ≡ true
    → (x ≡ id) ⊎ (contains id xs ≡ true)
unfolding contains
contains_inv id x xs h = ground arith

pub All-contains {ℓ} :
    (P : Uuid → Type ℓ) (xs : List Uuid) (id : Uuid) → All P xs → contains id xs ≡ true → P id
unfolding contains
All-contains P [] id h e = absurd (cc)
All-contains P (x ∷ xs) id h e = elim (Bool-cases (eqb x id)) [
  | inl same ↦ subst P ((eqb_iff x id).0 same) h.0
  | inr other ↦ All-contains P xs id h.1 (ground arith)
]

pub All-of_contains {ℓ} :
    (P : Uuid → Type ℓ) (xs : List Uuid) → ((id : Uuid) → contains id xs ≡ true → P id) → All P xs
unfolding contains
All-of_contains P [] f = tt
All-of_contains P (x ∷ xs) f =
    (f x (ground arith), All-of_contains P xs (λ id h. f id (ground arith)))

abbrev pub UuidMap {ℓ} : Type ℓ → Type ℓ
UuidMap V = List (Uuid × V)

module _ {ℓ} {V : Type ℓ} where
  unfoldable pub lookup : Uuid → UuidMap V → Option V
  lookup key [] = none
  lookup key ((found, value) ∷ rest) = if eqb found key then some value else lookup key rest

  abbrev pub contains_key : Uuid → UuidMap V → Bool
  contains_key k m = elim (lookup k m) [ none ↦ false | some _ ↦ true ]

  -- A key that is there keeps its place.
  unfoldable pub insert : Uuid → V → UuidMap V → UuidMap V
  insert key new [] = (key, new) ∷ []
  insert key new ((found, value) ∷ rest) =
      if eqb found key then (found, new) ∷ rest else (found, value) ∷ insert key new rest

  unfoldable pub remove : Uuid → UuidMap V → UuidMap V
  remove key [] = []
  remove key ((found, value) ∷ rest) =
      let kept = remove key rest in if eqb found key then kept else (found, value) ∷ kept

  abbrev pub keys : UuidMap V → List Uuid
  keys m = map (λ (k, _). k) m

  abbrev pub values : UuidMap V → List V
  values m = map (λ (_, v). v) m

  pub lookup-insert :
      (key other : Uuid) (new : V) (m : UuidMap V)
      → lookup other (insert key new m) ≡ (if eqb key other then some new else lookup other m)
  unfolding insert lookup
  lookup-insert key other new [] = refl
  lookup-insert key other new ((found, value) ∷ rest) =
      ground (arith, lookup-insert key other new rest)

  pub contains-keys : (k : Uuid) (m : UuidMap V) → contains k (keys m) ≡ contains_key k m
  unfolding contains lookup
  contains-keys k [] = refl
  contains-keys k ((j, v) ∷ m) = ground (arith, contains-keys k m)

  pub insert_new :
      (k : Uuid) (v : V) (m : UuidMap V) → lookup k m ≡ none → insert k v m ≡ m ++ (k, v) ∷ []
  unfolding lookup insert
  insert_new k v [] h = refl
  insert_new k v ((j, w) ∷ m) h = ground (arith, insert_new k v m)

  pub lookup-remove :
      (key other : Uuid) (m : UuidMap V)
      → lookup other (remove key m) ≡ (if eqb key other then none else lookup other m)
  unfolding remove lookup
  lookup-remove key other [] = ground arith
  lookup-remove key other ((found, value) ∷ rest) = ground (arith, lookup-remove key other rest)
