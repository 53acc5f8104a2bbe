-- ===== src/FileStore/Merge.antt =====
-- eventcore-fs/src/merge.rs: ancestors, forks, dangling transactions and colliding replicas.
pub mod Search
pub mod Groups
pub mod Claims
pub mod Forks
pub mod Resolution
pub mod Rebase
pub mod Collisions
use Prim.Native.Nat.{compare, Ordering}
use Prim.Native.String
use eventcore.Prelude.{
  ℕ, zero, suc, ◌+◌, String, List, [], ◌∷◌, ◌++◌, map, Bool, true, false, not, ◌&&◌, ◌||◌, Option,
  none, some, Result, ok, err, ◌>>=◌, map_err, filter_by, eqb, ltb, length, if◌then◌else◌,
}
use eventcore.Prelude.Comparison.{lexicographic}
use eventcore.Prelude.HashMap.{HashMap}
use eventcore.Prelude.Sorting.{sort_by}
use eventcore.Prelude.UuidMap.{Uuid, lookup, contains, contains_key, keys, values}
use eventcore.Types.Error.{StreamVersion}
use eventcore.FileStore.Format.{
  FsEventStoreError, corrupted, replica_identity_conflict, TransactionHeader,
}
use eventcore.FileStore.Topology.{Headers, referenced}

-- a set of identifiers as a list, whose `insert` also says whether the value was absent
abbrev pub Seen : Type 0
Seen = List Uuid

pub record Walk : Type 0 where
  pub stack : List Uuid
  pub seen : Seen

-- The loop over the parents; `none` when one of them is the ancestor.
unfoldable pub scan_parents : Uuid → List Uuid → Walk → Option Walk
scan_parents ancestor [] walk = some walk
scan_parents ancestor (parent ∷ rest) walk =
    let again = scan_parents ancestor rest walk in
    let deeper =
      scan_parents ancestor rest
        (record { stack = parent ∷ walk.stack; seen = parent ∷ walk.seen }) in
    if eqb parent ancestor then none else if contains parent walk.seen then again else deeper

-- The `while` loop; `none` when the fuel runs out.
unfoldable pub search : ℕ → Headers → Uuid → Walk → Option Bool
unfolding scan_parents
search zero headers ancestor walk = none
search (suc fuel) headers ancestor walk = elim walk.stack [
  | [] ↦ some false
  | current ∷ rest ↦ elim (lookup current headers) [
    | none ↦ search fuel headers ancestor (record { stack = rest; seen = walk.seen })
    | some header ↦
        elim (scan_parents ancestor header.parent_transaction_ids
          (record { stack = rest; seen = walk.seen })) [
            | none ↦ some true
            | some next ↦ search fuel headers ancestor next
          ]
  ]
]

-- Each round takes one transaction from the stack, and each named parent is put there at most once.
abbrev pub search_fuel : Headers → ℕ
search_fuel headers = suc (suc (length (referenced (values headers))))

unfoldable pub is_ancestor : Uuid → Uuid → Headers → Bool
unfolding search
is_ancestor ancestor descendant headers =
    elim (search (search_fuel headers) headers ancestor
      (record { stack = descendant ∷ []; seen = [] })) [ none ↦ false | some found ↦ found ]

-- `iter().all(…)` and `any`
unfoldable pub all_of : (Uuid → Bool) → List Uuid → Bool
all_of p [] = true
all_of p (x ∷ xs) = p x && all_of p xs

unfoldable pub any_of : (Uuid → Bool) → List Uuid → Bool
any_of p [] = false
any_of p (x ∷ xs) = p x || any_of p xs

unfoldable pub fork_is_resolved : List Uuid → Headers → Bool
unfolding any_of all_of
fork_is_resolved heads headers =
    any_of (λ candidate. all_of (λ head. is_ancestor head candidate headers) heads) (keys headers)

pub record DanglingTransaction : Type 0 where
  pub transaction_id : Uuid
  pub missing_parents : List Uuid

abbrev pub missing_parents_of : Headers → TransactionHeader → List Uuid
missing_parents_of headers header =
    filter_by (λ parent. not (contains_key parent headers)) header.parent_transaction_ids

-- the loop over the headers
unfoldable pub dangling_among : Headers → List TransactionHeader → List DanglingTransaction
dangling_among headers [] = []
dangling_among headers (header ∷ rest) = elim (missing_parents_of headers header) [
  | [] ↦ dangling_among headers rest
  | parent ∷ more ↦
      record { transaction_id = header.transaction_id; missing_parents = parent ∷ more }
      ∷ dangling_among headers rest
]

unfoldable pub detect_dangling_in : Headers → List DanglingTransaction
unfolding dangling_among
detect_dangling_in headers =
    sort_by (λ a b. compare a.transaction_id b.transaction_id)
      (dangling_among headers (values headers))

-- `Vec::push` under a key of a `BTreeMap`, whose entries stand in ascending order.
unfoldable pub push_group {ℓ} :
    {K : Type ℓ} (cmp : K → K → Ordering) → K → Uuid → List (K × List Uuid) → List (K × List Uuid)
push_group cmp key id [] = (key, id ∷ []) ∷ []
push_group cmp key id ((found, ids) ∷ rest) =
    let later = (found, ids) ∷ push_group cmp key id rest in
    elim (cmp key found) [
      | Ordering.lt ↦ (key, id ∷ []) ∷ (found, ids) ∷ rest
      | Ordering.eq ↦ (found, ids ++ id ∷ []) ∷ rest
      | Ordering.gt ↦ later
    ]

unfoldable pub by_replica :
    List TransactionHeader → List (Uuid × List Uuid) → List (Uuid × List Uuid)
unfolding push_group
by_replica [] groups = groups
by_replica (header ∷ rest) groups =
    by_replica rest (push_group compare header.replica_id header.transaction_id groups)

-- the inner loop: the first later transaction that is concurrent to `first`
unfoldable pub concurrent_to : Headers → Uuid → List Uuid → Option Uuid
concurrent_to headers first [] = none
concurrent_to headers first (second ∷ rest) =
    let later = concurrent_to headers first rest in
    if not (is_ancestor first second headers) && not (is_ancestor second first headers)
    then some second
    else later

-- the two loops over the sorted transactions of a replica
unfoldable pub concurrent_pair : Headers → List Uuid → Option (Uuid × Uuid)
unfolding concurrent_to
concurrent_pair headers [] = none
concurrent_pair headers (first ∷ rest) = elim (concurrent_to headers first rest) [
  | some second ↦ some (first, second)
  | none ↦ concurrent_pair headers rest
]

unfoldable pub collision_among :
    Headers → List (Uuid × List Uuid) → Result (Unit {0}) FsEventStoreError
unfolding concurrent_pair
collision_among headers [] = ok tt
collision_among headers ((replica_id, transactions) ∷ rest) =
    let others = collision_among headers rest in
    if ltb (length transactions) 2
    then others
    else elim (concurrent_pair headers (sort_by compare transactions)) [
      | some (first, second) ↦ err (replica_identity_conflict first second replica_id)
      | none ↦ others
    ]

unfoldable pub check_replica_collisions : Headers → Result (Unit {0}) FsEventStoreError
unfolding collision_among by_replica
check_replica_collisions headers = collision_among headers (by_replica (values headers) [])

pub record Fork : Type 0 where
  pub stream_id : String
  pub base_version : StreamVersion
  pub transactions : List Uuid

abbrev pub GroupKey : Type 0
GroupKey = String × StreamVersion

-- the entries of one header in the groups
unfoldable pub push_bases :
    Uuid → HashMap StreamVersion → List (GroupKey × List Uuid) → List (GroupKey × List Uuid)
unfolding push_group
push_bases id [] groups = groups
push_bases id (key ∷ bases) groups =
    push_bases id bases (push_group (lexicographic String.compare compare) key id groups)

unfoldable pub by_base :
    List TransactionHeader → List (GroupKey × List Uuid) → List (GroupKey × List Uuid)
unfolding push_bases
by_base [] groups = groups
by_base (header ∷ rest) groups =
    by_base rest (push_bases header.transaction_id header.stream_bases groups)

abbrev pub corrupted_stream : (stream error : String) → FsEventStoreError
corrupted_stream stream error =
    corrupted stream (String.◌++◌ "invalid stream id in transaction header: " error)

-- `StreamId::try_new` is a method of eventcore-types that nutype generates: an error is its message.
module _ (try_new : String → Result String String) where
  unfoldable pub forks_among :
      Headers → List (GroupKey × List Uuid) → Result (List Fork) FsEventStoreError
  forks_among headers [] = ok []
  forks_among headers (((stream, base), candidates) ∷ rest) =
      let others = forks_among headers rest in
      let fork = map_err (corrupted_stream stream) (try_new stream) >>= λ stream_id.
      others >>= λ forks. ok (
        record {
          stream_id = stream_id;
          base_version = base;
          transactions = sort_by compare candidates;
        }
        ∷ forks) in
      if ltb (length candidates) 2
      then others
      else if fork_is_resolved candidates headers
      then others
      else fork

  unfoldable pub detect_forks_in : Headers → Result (List Fork) FsEventStoreError
  unfolding forks_among by_base
  detect_forks_in headers =
      check_replica_collisions headers >>= λ _. forks_among headers (by_base (values headers) [])
