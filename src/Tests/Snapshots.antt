-- ===== src/Tests/Snapshots.antt =====
-- A replay of the bank's command while others deposit.
use eventcore.Prelude.{ℕ, ◌≡◌, refl, [], ◌∷◌}
use eventcore.Prelude.HashMap
use eventcore.Prelude.HashMap.{HashMap, lookup}
use eventcore.Prelude.HashSet.{contains}
use eventcore.Types.Error.{increment}
use eventcore.Memory.Store
use eventcore.Memory.Store.{decode, read, append_data, first_conflict, write_entries, write_entry}
use eventcore.Execute.Pipeline.{initial_reading, enqueue, discover}
use eventcore.Execute.OverMemory.{
  World, history, memory_store, memory-Contract, interfere, append_at,
}
use eventcore.Execute.Flow.{yields}
use eventcore.Execute.Replay.{
  ReplayProgress, replay_remaining_streams, record_stream, apply_command_stream, open_stream,
  apply_opened, apply_items,
}
use eventcore.Execute.ReplayPhase.{RoundTrips, StandsAt, EndsAt, replay-EndsAt}
use eventcore.Tests.Bank.{Deposit, deposit, one_deposit, bank, clock, sweep}

-- Somebody deposits in `a` before it is read, and again before `b` is read.
abbrev changing : World Deposit ℕ
changing = record {
  store = bank;
  schedule = one_deposit "a" 0 7 ∷ one_deposit "a" 1 5 ∷ [];
  tick = 0;
  versioned = λ k. unfold lookup in refl;
}

abbrev start : ReplayProgress ℕ ℕ
start = record {
  state = 0;
  queue = "a" ∷ [];
  visited = [];
  scheduled = "a" ∷ [];
  expected_versions = [];
  checkpoints = [];
}

-- `a` was read with one event, and `b` with none.
abbrev replayed : ReplayProgress ℕ ℕ
replayed = record {
  state = 7;
  queue = [];
  visited = "b" ∷ "a" ∷ [];
  scheduled = "b" ∷ "a" ∷ [];
  expected_versions = ("a", 1) ∷ ("b", 0) ∷ [];
  checkpoints =
      record { stream_id = "a"; state = 7; stream_versions = ("a", 1) ∷ [] }
      ∷ record { stream_id = "b"; state = 7; stream_versions = ("a", 1) ∷ ("b", 0) ∷ [] }
      ∷ [];
}

abbrev after_replay : World Deposit ℕ
after_replay = (replay_remaining_streams sweep (memory_store deposit clock) 4 start changing).1

replay_lem :
    replay_remaining_streams sweep (memory_store deposit clock) 4 start changing
    ≡ (yields replayed, after_replay)
unfolding replay_remaining_streams record_stream apply_command_stream open_stream apply_opened
    apply_items discover enqueue contains HashMap.insert lookup increment interfere append_at
    Store.append append_data first_conflict write_entries write_entry read decode
replay_lem = refl

sweep-RoundTrips : RoundTrips sweep
sweep-RoundTrips s v h = cc

start-StandsAt : StandsAt start (initial_reading sweep)
unfolding initial_reading enqueue contains
start-StandsAt = record {
  same_state = refl;
  same_versions = refl;
  same_visited = refl;
  same_scheduled = λ k. refl;
  same_next = refl;
}

replay-EndsAt_example :
    EndsAt sweep
      (memory_store deposit clock)
      history
      (decode deposit)
      (memory-Contract deposit clock)
      sweep-RoundTrips
      replayed
      after_replay
replay-EndsAt_example =
    replay-EndsAt sweep (memory_store deposit clock) history (decode deposit)
      (memory-Contract deposit clock) sweep-RoundTrips 4 start replayed changing after_replay []
      (initial_reading sweep) replay_lem (refl, refl) start-StandsAt
