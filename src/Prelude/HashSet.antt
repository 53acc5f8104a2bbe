-- ===== src/Prelude/HashSet.antt =====
-- `std::collections::HashSet` of texts, as a list. The program only inserts and tests.
use Prim.Native.String.{String}
use mathlib.Core.Path.{◌≡◌, refl}
use mathlib.Core.Bool.{Bool, true, false, ◌||◌}
use mathlib.Core.List.{List, [], ◌∷◌}
use native.Mathlib.Omega.{arith}
use text.Mathlib.Text.{◌==◌}
use text.Mathlib.TextEquality.{eq_iff}

abbrev pub HashSet : Type 0
HashSet = List String

unfoldable pub contains : String → HashSet → Bool
contains k [] = false
contains k (j ∷ s) = j == k || contains k s

-- `insert` also returns whether the value was absent: see `contains`.
abbrev pub insert : String → HashSet → HashSet
insert k s = k ∷ s

pub contains-insert :
    (k j : String) (s : HashSet) → contains j (insert k s) ≡ (k == j || contains j s)
unfolding contains
contains-insert k j s = refl

pub contains-insert_self : (k : String) (s : HashSet) → contains k (insert k s) ≡ true
unfolding contains
contains-insert_self k s = ground (arith, eq_iff k k)

pub contains-insert_old :
    (k j : String) (s : HashSet) → contains j s ≡ true → contains j (insert k s) ≡ true
unfolding contains
contains-insert_old k j s h = ground arith
