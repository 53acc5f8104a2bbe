-- ===== src/Memory/Reads.antt =====
-- Reads of the in-memory store against its appends, and the snapshots that it keeps.
use eventcore.Prelude.{
  ℕ, String, ◌≡◌, List, map, drop, true, false, Option, some, Result, ok, arith, if◌then◌else◌,
  Bool-cases, inl, inr, ◌⊎◌,
}
use eventcore.Prelude.HashMap.{lookup, lookup-insert_self, IsMap}
use eventcore.Types.Error.{StreamId, EventStoreError}
use eventcore.Types.Event.{Event}
use eventcore.Types.Writes.{StreamWrites}
use eventcore.Types.Snapshot.{CommandStateSnapshot, covers, covers_iff, Covers, Covers-refl}
use eventcore.Types.Query.{StreamPosition}
use eventcore.Memory.Store.{
  InMemoryEventStore, events_of, decode, read, read_after, append, append_data,
  save_command_state_snapshot,
}

module _ {Any Value : Type 0} where
  pub append_live :
      (now_v7 : ℕ → StreamPosition) (writes : StreamWrites Any)
      (store : InMemoryEventStore Any Value)
      → store.poisoned ≡ false
      → append now_v7 writes store ≡ (
        (append_data now_v7 writes store.content).0,
        record store { content = (append_data now_v7 writes store.content).1 },
      )
  unfolding append
  append_live now_v7 writes store h = ground arith

module _ {Any Value E : Type 0} (ev : Event Any E) where
  pub read_inv :
      (k : StreamId) (store : InMemoryEventStore Any Value) (old : List (Result E EventStoreError))
      → read ev k store ≡ ok old
      → (store.poisoned ≡ false) × (old ≡ map (decode ev k) (events_of store.content k))
  unfolding read
  read_inv k store old h = ground arith

  pub read_after_inv :
      (k : StreamId) (n : ℕ) (store : InMemoryEventStore Any Value)
      (items : List (Result E EventStoreError))
      → read_after ev k n store ≡ ok items
      → items ≡ map (decode ev k) (drop n (events_of store.content k))
  unfolding read_after
  read_after_inv k n store items h = ground arith

module _ {Any Value : Type 0} where
  -- what `load` finds, when the mutex is not poisoned
  abbrev stored : String → InMemoryEventStore Any Value → Option (CommandStateSnapshot Value)
  stored id store = lookup id store.command_state_snapshots

  kept :
      (id : String) (s : CommandStateSnapshot Value) (store : InMemoryEventStore Any Value)
      (current : CommandStateSnapshot Value)
      → stored id store ≡ some current
      → (store.poisoned ≡ true) ⊎ (covers s current ≡ false)
      → stored id (save_command_state_snapshot id s store).1 ≡ some current
  unfolding save_command_state_snapshot
  kept id s store current found (inl p) = ground arith
  kept id s store current found (inr c) = ground arith

  replaced :
      (id : String) (s : CommandStateSnapshot Value) (store : InMemoryEventStore Any Value)
      (current : CommandStateSnapshot Value)
      → stored id store ≡ some current
      → store.poisoned ≡ false
      → covers s current ≡ true
      → stored id (save_command_state_snapshot id s store).1 ≡ some s
  unfolding save_command_state_snapshot
  replaced id s store current found p c =
      ground (arith, lookup-insert_self id s store.command_state_snapshots)

  -- Where a snapshot is stored, saving another leaves one of the two: the new one if it covers
  -- every version of the stored one and the mutex is not poisoned, and else the stored one. So
  -- what is stored never falls behind a version that was stored before.
  pub save-Covers :
      (id : String) (s : CommandStateSnapshot Value) (store : InMemoryEventStore Any Value)
      (current : CommandStateSnapshot Value)
      → stored id store ≡ some current
      → IsMap current.stream_versions
      → (t : CommandStateSnapshot Value) × (stored id (save_command_state_snapshot id s store).1
          ≡ some t)
        × (t ≡ (if store.poisoned then current else if covers s current then s else current))
        × Covers t.stream_versions current.stream_versions
  save-Covers id s store current found h = elim (Bool-cases store.poisoned) [
    | inl p ↦
        (current, kept id s store current found (inl p), rw p, Covers-refl current.stream_versions)
    | inr live ↦ elim (Bool-cases (covers s current)) [
      | inl c ↦
          (s, replaced id s store current found live c, rw (live, c), (covers_iff s current h).0 c)
      | inr c ↦ (
        current,
        kept id s store current found (inr c),
        rw (live, c),
        Covers-refl current.stream_versions,
      )
    ]
  ]
