-- ===== src/Tests/FileStore.antt =====
-- Small histories of transactions: a line, a diamond, two branches of one stream, and a stream that two
-- transactions of a line claim.
use eventcore.Prelude.{
  ℕ, ◌<◌, ◌≡◌, refl, ◌⊎◌, err, List, [], ◌∷◌, true, none, some, ok, arith, eqb, leb, ◌↔◌,
  if◌then◌else◌,
}
use mathlib.Core.List.{Memᴰ}
use eventcore.Prelude.HashMap.{HashMap}
use eventcore.Prelude.Sorting.{sort_by, insert_by}
use eventcore.Prelude.UuidMap
use eventcore.Prelude.UuidMap.{Uuid, lookup, contains, contains_key, IsDistinct, keys, values}
use eventcore.Types.Error.{StreamVersion}
use eventcore.FileStore.Format.{TransactionHeader, replica_identity_conflict}
use eventcore.FileStore.Topology.{
  Headers, transaction_depth, best_of, linearize, keyed_entries, referenced, compute_tips,
}
use eventcore.FileStore.Topology.Depth.{IsParent, IsDag}
use eventcore.FileStore.Topology.Precedence.{position, linearize_topological}
use eventcore.FileStore.Topology.Convergence.{SameLookups, linearize_converges}
use eventcore.FileStore.Topology.Tips.{Ancestor}
use eventcore.FileStore.Topology.Extension.{IsOnTop, extended}
use eventcore.FileStore.Merge.{
  is_ancestor, search, search_fuel, scan_parents, detect_forks_in, check_replica_collisions,
  collision_among, concurrent_pair, concurrent_to, by_replica, by_base, push_bases, push_group,
  forks_among, fork_is_resolved, any_of, all_of, Fork,
}
use eventcore.FileStore.Merge.Search.{is_ancestor_lem}
use eventcore.FileStore.Merge.Resolution.{append_resolves}
use eventcore.FileStore.Merge.Collisions.{
  written_by, IsConcurrent, IsLine, check_replica_collisions_exact,
}

-- a transaction with its identifier, parents and base versions
abbrev pub transaction : Uuid → List Uuid → HashMap StreamVersion → TransactionHeader
transaction id parents bases = record {
  format_version = 2;
  transaction_id = id;
  replica_id = id;
  parent_transaction_ids = parents;
  created_at = "2026-01-01T00:00:00Z";
  stream_bases = bases;
  content_hash = none;
}

-- a root, two branches that extend the stream `a` from version 1, and their merge
abbrev pub root : TransactionHeader
root = transaction 1 [] (("a", 0) ∷ [])

abbrev first_branch : TransactionHeader
first_branch = transaction 2 (1 ∷ []) (("a", 1) ∷ [])

abbrev second_branch : TransactionHeader
second_branch = transaction 3 (1 ∷ []) (("a", 1) ∷ [])

abbrev merge : TransactionHeader
merge = transaction 4 (2 ∷ 3 ∷ []) (("a", 2) ∷ [])

abbrev branches : Headers
branches = (1, root) ∷ (2, first_branch) ∷ (3, second_branch) ∷ []

abbrev diamond : Headers
diamond = (1, root) ∷ (2, first_branch) ∷ (3, second_branch) ∷ (4, merge) ∷ []

abbrev shuffled : Headers
shuffled = (3, second_branch) ∷ (4, merge) ∷ (1, root) ∷ (2, first_branch) ∷ []

abbrev identity_rank : Uuid → ℕ
identity_rank id = if leb id 1 then 0 else if eqb id 4 then 2 else 1

diamond-IsDag : IsDag diamond identity_rank
unfolding lookup contains
diamond-IsDag = record {
  bounded = λ id known. ground arith;
  falls = λ p id (header, found, there, known). ground arith;
}

diamond-IsDistinct : IsDistinct (keys diamond)
unfolding contains
diamond-IsDistinct = (refl, (refl, (refl, (refl, tt))))

linearized : linearize diamond ≡ some (1 ∷ 2 ∷ 3 ∷ 4 ∷ [])
unfolding linearize transaction_depth best_of keyed_entries lookup insert_by sort_by UuidMap.insert
linearized = refl

linearize_topological_example :
    (order : List Uuid) × (linearize diamond ≡ some order)
    × ((id : Uuid) → contains id order ≡ contains_key id diamond)
    × ((p id : Uuid) → IsParent diamond p id → position p order < position id order)
linearize_topological_example =
    linearize_topological diamond identity_rank diamond-IsDag diamond-IsDistinct

shuffled-IsDag : IsDag shuffled identity_rank
unfolding lookup contains
shuffled-IsDag = record {
  bounded = λ id known. ground arith;
  falls = λ p id (header, found, there, known). ground arith;
}

shuffled-IsDistinct : IsDistinct (keys shuffled)
unfolding contains
shuffled-IsDistinct = (refl, (refl, (refl, (refl, tt))))

shuffled_same : SameLookups diamond shuffled
unfolding lookup
shuffled_same id = ground arith

linearize_converges_example : linearize diamond ≡ linearize shuffled
linearize_converges_example =
    linearize_converges diamond shuffled shuffled_same identity_rank identity_rank diamond-IsDag
      shuffled-IsDag diamond-IsDistinct shuffled-IsDistinct

is_ancestor_lem_example :
    (search (search_fuel diamond) diamond 1 (record { stack = 4 ∷ []; seen = [] })
      ≡ some (is_ancestor 1 4 diamond))
    × ((is_ancestor 1 4 diamond ≡ true) ↔ Ancestor diamond 1 4)
is_ancestor_lem_example = is_ancestor_lem diamond 1 4

-- The two branches are a fork until the merge.
abbrev branch_fork : Fork
branch_fork = record { stream_id = "a"; base_version = 1; transactions = 2 ∷ 3 ∷ [] }

diamond_resolved : detect_forks_in ok diamond ≡ ok []
unfolding detect_forks_in check_replica_collisions collision_among concurrent_pair concurrent_to
    by_replica by_base push_bases push_group forks_among fork_is_resolved any_of all_of is_ancestor
    search scan_parents lookup contains sort_by insert_by referenced
diamond_resolved = refl

-- A second transaction on top of the first claims the version that the first has used, since a command
-- only read the stream.
abbrev line : Headers
line = (1, root) ∷ []

abbrev reclaiming : TransactionHeader
reclaiming = transaction 2 (1 ∷ []) (("a", 0) ∷ [])

abbrev line_fork : Fork
line_fork = record { stream_id = "a"; base_version = 0; transactions = 1 ∷ 2 ∷ [] }

line-IsDag : IsDag line (λ _. 0)
unfolding lookup contains
line-IsDag = record {
  bounded = λ id known. ground arith;
  falls = λ p id (header, found, there, known). ground arith;
}

reclaiming-IsOnTop : IsOnTop line 2 reclaiming
unfolding lookup contains referenced compute_tips sort_by insert_by
reclaiming-IsOnTop = record {
  fresh = refl;
  unnamed = refl;
  not_own_parent = refl;
  above_tips = λ tip there. there;
}

line_forked : detect_forks_in ok (extended line 2 reclaiming) ≡ ok (line_fork ∷ [])
unfolding detect_forks_in check_replica_collisions collision_among concurrent_pair concurrent_to
    by_replica by_base push_bases push_group forks_among fork_is_resolved any_of all_of is_ancestor
    search scan_parents lookup contains sort_by insert_by UuidMap.insert referenced
line_forked = refl

append_resolves_example : contains 2 line_fork.transactions ≡ true
unfolding contains
append_resolves_example =
    append_resolves line 2 reclaiming reclaiming-IsOnTop (λ _. 0) line-IsDag (refl, tt) ok
      (line_fork ∷ []) line_fork (refl, tt) refl line_forked (Memᴰ.head refl)

-- A working copy was copied: both branches carry the replica 9.
abbrev copied : Headers
copied =
    (1, root)
    ∷ (2, record first_branch { replica_id = 9 })
    ∷ (3, record second_branch { replica_id = 9 })
    ∷ []

check_replica_collisions_exact_example :
    ((check_replica_collisions copied ≡ ok tt)
      × ((replica : Uuid) → IsLine copied (written_by replica (values copied))))
    ⊎ ((first second replica : Uuid) × (check_replica_collisions copied
          ≡ err (replica_identity_conflict first second replica))
        × (contains first (written_by replica (values copied)) ≡ true)
        × (contains second (written_by replica (values copied)) ≡ true)
        × IsConcurrent copied first second)
check_replica_collisions_exact_example = check_replica_collisions_exact copied

copied_collide : check_replica_collisions copied ≡ err (replica_identity_conflict 2 3 9)
unfolding check_replica_collisions collision_among concurrent_pair concurrent_to by_replica
    push_group is_ancestor search scan_parents lookup contains sort_by insert_by referenced
copied_collide = refl
