-- ===== src/Tests/Memory.antt =====
-- The in-memory store at work.
use eventcore.Prelude.{ℕ, ◌≤◌, ◌<◌, ◌≡◌, ◌≢◌, refl, ◌↔◌, [], ◌∷◌, some, ok, arith, if◌then◌else◌}
use eventcore.Prelude.HashMap.{lookup, IsMap}
use eventcore.Types.Snapshot.{CommandStateSnapshot, covers, Covers}
use eventcore.Memory.Store
use eventcore.Memory.Store.{
  InMemoryEventStore, StoreData, append_data, write_entries, write_entry,
  save_command_state_snapshot,
}
use eventcore.Memory.Append.{Matches, append_data_iff}
use eventcore.Memory.Invariant.{IsValid, append_data-IsValid, new-IsValid}
use eventcore.Memory.Reads.{save-Covers}
use eventcore.Memory.Coordination.{
  InMemoryCoordinationGuard, Leadership, acquired, Reach, here, next, idle, count, try_acquire,
  one_leader,
}
use eventcore.Tests.Bank.{Deposit, one_deposit, bank, clock}

one_deposit-IsMap : (version : ℕ) → IsMap (one_deposit "a" version 7).expected_versions
unfolding lookup
one_deposit-IsMap version = (refl, tt)

-- The bank is empty, so a batch that expects version 3 is refused.
append_data_iff_example :
    ((append_data clock (one_deposit "a" 3 7) bank.content).0 ≡ ok tt)
    ↔ Matches bank.content (one_deposit "a" 3 7).expected_versions
append_data_iff_example =
    append_data_iff clock (one_deposit "a" 3 7) bank.content (one_deposit-IsMap 3)

append_data-IsValid_example :
    IsValid (clock 1) (append_data clock (one_deposit "a" 0 7) bank.content).1
append_data-IsValid_example =
    append_data-IsValid clock (one_deposit "a" 0 7) bank.content (λ i. omega arith)
      (new-IsValid (clock 0))

abbrev old : CommandStateSnapshot ℕ
old = record { state = 5; stream_versions = ("a", 2) ∷ []; replay_checkpoints = [] }

abbrev older : CommandStateSnapshot ℕ
older = record { state = 4; stream_versions = ("a", 1) ∷ []; replay_checkpoints = [] }

abbrev saved : InMemoryEventStore Deposit ℕ
saved = record bank {
  content = record bank.content { command_state_snapshots = ("sweep", old) ∷ [] };
}

old-IsMap : IsMap old.stream_versions
unfolding lookup
old-IsMap = (refl, tt)

save-Covers_example :
    (t : CommandStateSnapshot ℕ) × (lookup "sweep"
        (save_command_state_snapshot "sweep" older saved).1.command_state_snapshots
      ≡ some t)
    × (t ≡ (if covers older old then older else old))
    × Covers t.stream_versions old.stream_versions
unfolding lookup
save-Covers_example = save-Covers "sweep" older saved old refl old-IsMap

-- One instance leads, and drops its guard.
abbrev guard : InMemoryCoordinationGuard
guard = record { subscription_name = "report" }

abbrev led : Leadership
led = record { locks = (try_acquire "report" idle.locks).1; guards = "report" ∷ [] }

led-Reach : Reach idle led
led-Reach = next here (acquired "report" guard (unfold try_acquire lookup in refl))

one_leader_example :
    (count "report" led.guards ≤ 1)
    × (0 < count "report" led.guards
        → (g : InMemoryCoordinationGuard) → (try_acquire "report" led.locks).0 ≢ ok g)
one_leader_example = one_leader "report" led-Reach
