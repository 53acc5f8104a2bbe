-- ===== src/Tests/Execute.antt =====
-- Executions of the bank's command while others deposit.
use eventcore.Prelude.{
  ℕ, ◌+◌, ◌≡◌, refl, subst, List, [], ◌∷◌, Result, none, some, ok, arith, try_fold,
}
use eventcore.Prelude.HashMap.{HashMap, lookup, insert}
use eventcore.Prelude.HashSet.{contains}
use eventcore.Types.Error.{StreamId, CommandError, increment}
use eventcore.Types.Writes
use eventcore.Types.Writes.{StreamWrites, build_stream_writes_from_events, register_stream}
use eventcore.Memory.Store
use eventcore.Memory.Store.{
  decode, events_of, read, append_data, first_conflict, write_entries, write_entry,
}
use eventcore.Execute.Retry.{
  base_delay, compute_retry_delay_ms, calculate_jitter_factor, apply_jitter,
}
use eventcore.Execute.Pipeline.{
  step, resume, step_reading, step_handling, resume_read, resume_append, retry, initial_reading,
  enqueue, discover, end_stream, next_unvisited,
}
use eventcore.Execute.Shell.{Run, returned, execute, drive, pump_items, pump_stream_reads}
use eventcore.Execute.OverMemory.{World, memory_store, interfere, append_at}
use eventcore.Execute.Discovery.{Within, IsConfined}
use eventcore.Execute.Termination.{execute-Returns}
use eventcore.Tests.Bank.{Deposit, deposit, one_deposit, bank, clock, sweep, tenths, policy}

-- Somebody deposits in `a` before it is read, and again before the command appends.
abbrev busy : World Deposit ℕ
busy = record {
  store = bank;
  schedule = one_deposit "a" 0 7 ∷ one_deposit "a" 1 5 ∷ [];
  tick = 0;
  versioned = λ k. unfold lookup in refl;
}

run : Run × World Deposit ℕ
unfolding execute drive step resume step_reading step_handling resume_read resume_append retry
    pump_items pump_stream_reads initial_reading enqueue discover end_stream next_unvisited contains
    insert lookup build_stream_writes_from_events register_stream try_fold Writes.append increment
    compute_retry_delay_ms base_delay calculate_jitter_factor apply_jitter interfere append_at
    Store.append append_data first_conflict write_entries write_entry decode read
run = execute deposit sweep tenths policy (λ i. 5) (memory_store deposit clock) 20 busy

-- The first attempt meets a conflict, and the second one succeeds.
run_succeeds : run.0 ≡ returned (ok 2)
unfolding run
run_succeeds = refl

resolves :
    (resolver : ℕ → List StreamId)
    → sweep.stream_resolver ≡ some resolver
    → (s : ℕ) → Within ("a" ∷ "b" ∷ []) (resolver s)
unfolding contains
resolves resolver h s =
    subst (λ o. Within ("a" ∷ "b" ∷ []) (elim o [ none ↦ [] | some g ↦ g s ])) h (refl, (refl, tt))

sweep-IsConfined : IsConfined sweep ("a" ∷ "b" ∷ [])
sweep-IsConfined = record { declared = unfold contains in (refl, tt); discovered = resolves }

execute-Returns_example :
    (n : ℕ) × ((extra : ℕ)
      → (r : Result ℕ CommandError) × ((execute deposit sweep tenths policy
            (λ i. 5)
            (memory_store deposit clock)
            (n + extra)
            busy).0
          ≡ returned r))
execute-Returns_example =
    execute-Returns deposit sweep tenths policy (λ i. 5) (memory_store deposit clock)
      ("a" ∷ "b" ∷ []) sweep-IsConfined busy (omega arith)
