-- ===== src/Memory/Coordination.antt =====
-- The leadership locks and the checkpoints of eventcore-memory/src/lib.rs. The store and
-- `InMemoryProjectorCoordinator` keep the same kind of lock table, which their guards share; the
-- store and `InMemoryCheckpointStore` keep the same kind of checkpoint map.
use eventcore.Prelude.{
  ℕ, suc, ◌-◌, ◌≤◌, ◌<◌, ◌≡◌, ◌≢◌, String, Bool, true, false, Option, Result, ok, err, arith, ◌==◌,
  eq_iff, if◌then◌else◌, List, [], ◌∷◌,
}
use eventcore.Prelude.HashMap
use eventcore.Prelude.HashMap.{HashMap, lookup, contains_key, lookup-insert, lookup-remove}
use eventcore.Types.Query.{StreamPosition}
use eventcore.Memory.Store.{InMemoryEventStore, LockTable}

-- The text of a poison error is not modelled.
pub data InMemoryCheckpointError : Type 0 where
  lock_failed : InMemoryCheckpointError

pub data InMemoryCoordinationError : Type 0 where
  leadership_not_acquired : String → InMemoryCoordinationError
  lock_poisoned : InMemoryCoordinationError

pub record InMemoryCoordinationGuard : Type 0 where
  pub subscription_name : String

-- `InMemoryProjectorCoordinator::try_acquire`, on its lock table
unfoldable pub try_acquire :
    String → LockTable → Result InMemoryCoordinationGuard InMemoryCoordinationError × LockTable
try_acquire name locks =
    if locks.poisoned
    then (err lock_poisoned, locks)
    else if contains_key name locks.held
    then (err (leadership_not_acquired name), locks)
    else (
      ok (record { subscription_name = name }),
      record locks { held = HashMap.insert name tt locks.held },
    )

-- `Drop for InMemoryCoordinationGuard`
unfoldable pub drop_guard : InMemoryCoordinationGuard → LockTable → LockTable
drop_guard guard locks =
    if locks.poisoned
    then locks
    else record locks { held = HashMap.remove guard.subscription_name locks.held }

module _ {Any Value : Type 0} where
  -- `ProjectorCoordinator for InMemoryEventStore`
  unfoldable pub store_try_acquire :
      String
      → InMemoryEventStore Any Value
      → Result InMemoryCoordinationGuard InMemoryCoordinationError × InMemoryEventStore Any Value
  store_try_acquire name store =
      if store.poisoned
      then (err lock_poisoned, store)
      else (let (r, locks) = try_acquire name store.locks in
          (r, record store { content = record store.content { locks = locks } }))

  -- `CheckpointStore for InMemoryEventStore`
  unfoldable pub store_load :
      String → InMemoryEventStore Any Value → Result (Option StreamPosition) InMemoryCheckpointError
  store_load name store =
      if store.poisoned then err lock_failed else ok (lookup name store.checkpoints)

  unfoldable pub store_save :
      String
      → StreamPosition
      → InMemoryEventStore Any Value
      → Result (Unit {0}) InMemoryCheckpointError × InMemoryEventStore Any Value
  store_save name position store = if store.poisoned then (err lock_failed, store) else (
    ok tt,
    record store {
      content = record store.content {
        checkpoints = HashMap.insert name position store.checkpoints;
      };
    },
  )

-- `poisoned` is the state of the map's `RwLock`.
pub record InMemoryCheckpointStore : Type 0 where
  pub checkpoints : HashMap StreamPosition
  pub poisoned : Bool

unfoldable pub load :
    String → InMemoryCheckpointStore → Result (Option StreamPosition) InMemoryCheckpointError
load name store = if store.poisoned then err lock_failed else ok (lookup name store.checkpoints)

unfoldable pub save :
    String
    → StreamPosition
    → InMemoryCheckpointStore
    → Result (Unit {0}) InMemoryCheckpointError × InMemoryCheckpointStore
save name position store =
    if store.poisoned
    then (err lock_failed, store)
    else (ok tt, record store { checkpoints = HashMap.insert name position store.checkpoints })

-- What the instances of a process do with one lock table, one step after another. `guards` lists
-- the subscriptions of the guards that are alive.
pub record Leadership : Type 0 where
  pub locks : LockTable
  pub guards : List String

-- How many guards of a subscription are alive.
abbrev pub count : String → List String → ℕ
count k [] = 0
count k (j ∷ js) = if j == k then suc (count k js) else count k js

abbrev pub drop_first : String → List String → List String
drop_first k [] = []
drop_first k (j ∷ js) = if j == k then js else j ∷ drop_first k js

pub data Step (s : Leadership) : Leadership → Type 0 where
  acquired :
      (name : String) (g : InMemoryCoordinationGuard)
      → (try_acquire name s.locks).0 ≡ ok g
      → Step s
          (record { locks = (try_acquire name s.locks).1; guards = g.subscription_name ∷ s.guards })
  refused :
      (name : String) (e : InMemoryCoordinationError)
      → (try_acquire name s.locks).0 ≡ err e
      → Step s (record s { locks = (try_acquire name s.locks).1 })
  dropped :
      (g : InMemoryCoordinationGuard)
      → 0 < count g.subscription_name s.guards
      → Step s (record {
        locks = drop_guard g s.locks;
        guards = drop_first g.subscription_name s.guards;
      })
  -- a thread panics while it holds the table
  poison : Step s (record s { locks = record s.locks { poisoned = true } })

pub data Reach (s : Leadership) : Leadership → Type 0 where
  here : Reach s s
  next : {t u : Leadership} → Reach s t → Step t u → Reach s u

-- A subscription has a live guard only while its lock is held, and then one.
abbrev IsExclusive : Leadership → Type 0
IsExclusive s = (k : String) → count k s.guards ≤ (if contains_key k s.locks.held then 1 else 0)

count-drop_first :
    (k j : String) (js : List String)
    → count k (drop_first j js) ≡ (if j == k then count k js - 1 else count k js)
count-drop_first k j [] = ground arith
count-drop_first k j (i ∷ js) =
    ground (arith, eq_iff i j, eq_iff i k, eq_iff j k, count-drop_first k j js)

acquired-IsExclusive :
    (s : Leadership) (name : String) (g : InMemoryCoordinationGuard)
    → (try_acquire name s.locks).0 ≡ ok g
    → IsExclusive s
    → IsExclusive
        (record { locks = (try_acquire name s.locks).1; guards = g.subscription_name ∷ s.guards })
unfolding try_acquire
acquired-IsExclusive s name g a h k =
    ground (arith, h k, lookup-insert name k tt s.locks.held, eq_iff name k)

refused-IsExclusive :
    (s : Leadership) (name : String) (e : InMemoryCoordinationError)
    → (try_acquire name s.locks).0 ≡ err e
    → IsExclusive s
    → IsExclusive (record s { locks = (try_acquire name s.locks).1 })
unfolding try_acquire
refused-IsExclusive s name e a h k = ground (arith, h k)

dropped-IsExclusive :
    (s : Leadership) (g : InMemoryCoordinationGuard)
    → IsExclusive s
    → IsExclusive
        (record { locks = drop_guard g s.locks; guards = drop_first g.subscription_name s.guards })
unfolding drop_guard
dropped-IsExclusive s g h k = ground (
  arith,
  h k,
  lookup-remove g.subscription_name k s.locks.held,
  count-drop_first k g.subscription_name s.guards,
)

Step-IsExclusive : {s t : Leadership} → IsExclusive s → Step s t → IsExclusive t
Step-IsExclusive {s} h (acquired name g a) = acquired-IsExclusive s name g a h
Step-IsExclusive {s} h (refused name e a) = refused-IsExclusive s name e a h
Step-IsExclusive {s} h (dropped g _) = dropped-IsExclusive s g h
Step-IsExclusive {s} h poison = h

Reach-IsExclusive : {s t : Leadership} → IsExclusive s → Reach s t → IsExclusive t
Reach-IsExclusive h here = h
Reach-IsExclusive h (next r st) = Step-IsExclusive (Reach-IsExclusive h r) st

abbrev pub idle : Leadership
idle = record { locks = record { held = []; poisoned = false }; guards = [] }

-- From an empty lock table, whatever instances acquire and drop in whatever order, and even if the
-- table is poisoned on the way, no subscription ever has two live guards, and one that has a guard
-- is refused to every other instance.
pub one_leader :
    {s : Leadership} (name : String)
    → Reach idle s
    → (count name s.guards ≤ 1)
      × (0 < count name s.guards
          → (g : InMemoryCoordinationGuard) → (try_acquire name s.locks).0 ≢ ok g)
unfolding try_acquire
one_leader {s} name r =
    let h : IsExclusive s = Reach-IsExclusive (λ k. omega arith) r in
    (ground (arith, h name), λ p g e. ground (arith, h name))

-- A guard that is dropped frees its subscription, and no other.
pub drop_guard-try_acquire :
    (g : InMemoryCoordinationGuard) (locks : LockTable) (k : String)
    → locks.poisoned ≡ false
    → contains_key k (drop_guard g locks).held
      ≡ (if g.subscription_name == k then false else contains_key k locks.held)
unfolding drop_guard
drop_guard-try_acquire g locks k live =
    ground (arith, lookup-remove g.subscription_name k locks.held)
