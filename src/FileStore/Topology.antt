-- ===== src/FileStore/Topology.antt =====
-- The graph of transactions in eventcore-fs/src/index.rs: how deep a transaction lies, the canonical
-- order of all of them, and the tips that nothing extends.
pub mod Depth
pub mod Order
pub mod Precedence
pub mod Convergence
pub mod Tips
pub mod Extension
pub mod Last
use Prim.Native.Nat.{compare, max, Ordering}
use Prim.Native.String
use eventcore.Prelude.{
  ℕ, zero, suc, ◌+◌, String, List, [], ◌∷◌, ◌++◌, map, not, true, false, Option, none, some, leb,
  length, filter_by, if◌then◌else◌,
}
use eventcore.Prelude.Comparison.{lexicographic}
use eventcore.Prelude.Sorting.{sort_by}
use eventcore.Prelude.UuidMap
use eventcore.Prelude.UuidMap.{Uuid, UuidMap, lookup, contains, contains_key, keys, values}
use eventcore.FileStore.Format.{TransactionHeader}

abbrev pub Headers : Type 0
Headers = UuidMap TransactionHeader

abbrev pub Memo : Type 0
Memo = UuidMap ℕ

-- The loop over the parents. A depth is below the number of transactions, so the sum does not wrap.
unfoldable pub best_of :
    (Uuid → Memo → Option (ℕ × Memo)) → Headers → List Uuid → ℕ → Memo → Option (ℕ × Memo)
best_of depth headers [] best memo = some (best, memo)
best_of depth headers (parent ∷ rest) best memo = elim (contains_key parent headers) [
  | false ↦ best_of depth headers rest best memo
  | true ↦ elim (depth parent memo) [
    | none ↦ none
    | some (d, memo') ↦ best_of depth headers rest (max best (d + 1)) memo'
  ]
]

-- The first argument bounds the depth of the recursion; `none` means that it was not enough.
unfoldable pub transaction_depth : ℕ → Headers → Uuid → Memo → Option (ℕ × Memo)
unfolding best_of
transaction_depth zero headers id memo = none
transaction_depth (suc fuel) headers id memo = elim (lookup id memo) [
  | some depth ↦ some (depth, memo)
  | none ↦ elim (lookup id headers) [
    | none ↦ some (0, UuidMap.insert id 0 memo)
    | some header ↦
        elim (best_of (transaction_depth fuel headers) headers header.parent_transaction_ids 0
          memo) [ none ↦ none | some (best, memo') ↦ some (best, UuidMap.insert id best memo') ]
  ]
]

-- depth, time of creation, replica, transaction
abbrev pub Key : Type 0
Key = ℕ × (String × (Uuid × Uuid))

abbrev pub compare_key : Key → Key → Ordering
compare_key = lexicographic compare (lexicographic String.compare (lexicographic compare compare))

-- The closure that `linearize` maps over the headers; a recursion through `n` transactions is at
-- most `n` deep, when no transaction is an ancestor of itself.
unfoldable pub keyed_entries : Headers → Headers → Memo → Option (List (Uuid × Key))
keyed_entries headers [] memo = some []
keyed_entries headers ((id, header) ∷ rest) memo =
    elim (transaction_depth (suc (length headers)) headers id memo) [
      | none ↦ none
      | some (depth, memo') ↦ elim (keyed_entries headers rest memo') [
        | none ↦ none
        | some more ↦ some ((id, (depth, (header.created_at, (header.replica_id, id)))) ∷ more)
      ]
    ]

unfoldable pub linearize : Headers → Option (List Uuid)
linearize headers = elim (keyed_entries headers headers []) [
  | none ↦ none
  | some keyed ↦
      some (map (λ (id, _). id) (sort_by (λ (_, left) (_, right). compare_key left right) keyed))
]

-- the set of all identifiers that some transaction names as its parent
unfoldable pub referenced : List TransactionHeader → List Uuid
referenced [] = []
referenced (header ∷ headers) = header.parent_transaction_ids ++ referenced headers

unfoldable pub compute_tips : Headers → List Uuid
unfolding referenced
compute_tips headers =
    sort_by compare
      (filter_by (λ id. not (contains id (referenced (values headers)))) (keys headers))
