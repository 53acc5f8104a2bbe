-- ===== src/Execute/Termination.antt =====
-- An execution that discovers finitely many streams ends, whatever the store answers.
use native.Mathlib.Nat.{zero-add}
use eventcore.Prelude.{
  ℕ, zero, suc, ◌+◌, ◌%◌, ◌≤◌, ◌<◌, ◌≡◌, refl, sym, ◌∙◌, subst, List, length, some, Result, arith,
  Option-cases, inl, inr,
}
use eventcore.Prelude.HashSet
use eventcore.Prelude.HashSet.{HashSet, contains}
use eventcore.Types.Error.{StreamId, CommandError, u32_mod, usize_mod}
use eventcore.Types.Event.{Event}
use eventcore.Execute.Interface.{CommandLogic, EventStore}
use eventcore.Execute.Retry.{Float, RetryPolicy}
use eventcore.Execute.Pipeline.{
  error, Reading, awaiting_stream_read, done, ExecutePipeline, new, at_phase, next_unvisited,
  initial_reading, end_stream, step_reading, step,
}
use eventcore.Execute.Shell.{returned, pump_stream_reads, execute}
use eventcore.Execute.Steps.{ended, step_reading-some, step_reading-none, pump_stream_reads_lem}
use eventcore.Execute.Atomic.{fold_events}
use eventcore.Execute.ReadPhase.{next_unvisited-contains}
use eventcore.Execute.Discovery.{
  Within, IsConfined, unvisited, unvisited-insert, next_unvisited-Within, initial_reading-Within,
  end_stream-Within,
}
use eventcore.Execute.Halting.{
  Halts, finished-Halts, read_drive, Retries, last-Halts, Restarts, retry-Halts, handling-Halts,
}

module _ {Any E S Value F W : Type 0} (ev : Event Any E) (command : CommandLogic E S Value)
    (f : Float F) (policy : RetryPolicy) (random : ℕ → F) (store : EventStore Any E Value W) where
  module _ (u : HashSet) (confined : IsConfined command u) where
    -- The read phase that has fewer streams left.
    abbrev Onward : ℕ → Reading S → Type 0
    Onward a r =
        (r' : Reading S) (p' : ExecutePipeline S) (w' : W)
        → unvisited u r'.visited < unvisited u r.visited
        → Within u r'.queue
        → p'.attempt ≡ a
        → Halts ev command f policy random store (step_reading ev command r' p') w'

    visiting-Halts :
        (a : ℕ) (r : Reading S) (p : ExecutePipeline S) (w : W) (k : StreamId)
        (rest : List StreamId)
        → next_unvisited r.visited r.queue ≡ some (k, rest)
        → Within u r.queue
        → p.attempt ≡ a
        → Onward a r
        → let visiting = at_phase p (
            awaiting_stream_read k
              (record r { queue = rest; visited = HashSet.insert k r.visited })
              0) in
          Halts ev command f policy random store
            (pump_stream_reads ev command f policy random store k visiting w).0
            (pump_stream_reads ev command f policy random store k visiting w).1
    unfolding end_stream
    visiting-Halts a r p w k rest n q same onward =
        let left = record r { queue = rest; visited = HashSet.insert k r.visited } in
        let visiting = at_phase p (awaiting_stream_read k left 0) in
        let pumped = pump_stream_reads ev command f policy random store k visiting w in
        let (within, rest_within) = next_unvisited-Within u r.visited r.queue k rest q n in
        elim (pump_stream_reads_lem ev command f policy random store k left p w) [
          | inr (e, t) ↦
              finished-Halts ev command f policy random store pumped.0 (error e) pumped.1 t
          | inl (es, _, t) ↦
              subst (λ o. Halts ev command f policy random store o pumped.1) (sym t)
                (onward (ended ev command f policy random store k left es (length es))
                  (at_phase p done) pumped.1
                  (unvisited-insert u r.visited k within
                    (next_unvisited-contains r.visited r.queue k rest n))
                  (end_stream-Within command u confined k
                    (record left { state = fold_events command r.state es }) (length es % usize_mod)
                    rest_within)
                  same)
        ]

    one_step-Halts :
        (a : ℕ) (r : Reading S) (p : ExecutePipeline S) (w : W)
        → a + 1 < u32_mod
        → ((q : ExecutePipeline S) → q.attempt ≡ a → Retries ev command f policy random store q)
        → Within u r.queue
        → p.attempt ≡ a
        → Onward a r
        → Halts ev command f policy random store (step_reading ev command r p) w
    one_step-Halts a r p w l again q same onward =
        elim (Option-cases (next_unvisited r.visited r.queue)) [
          | inl n ↦ rw (step_reading-none ev command f policy random store r p n) (
              handling-Halts ev command f policy random store r.stream_ids r.expected_versions
                r.state p w (omega arith) (λ p' e. again p' (e ∙ same)))
          | inr ((k, rest), n) ↦
              rw (step_reading-some ev command f policy random store r p k rest n) (
                let h = visiting-Halts a r p w k rest n q same onward in
                (
                  h.0 + 1,
                  read_drive ev command f policy random store k
                      (at_phase p (
                        awaiting_stream_read k
                          (record r { queue = rest; visited = HashSet.insert k r.visited }) 0))
                      w h,
                ))
        ]

    reading-Halts :
        (left a : ℕ) (r : Reading S) (p : ExecutePipeline S) (w : W)
        → a + 1 < u32_mod
        → ((q : ExecutePipeline S) → q.attempt ≡ a → Retries ev command f policy random store q)
        → unvisited u r.visited ≤ left
        → Within u r.queue
        → p.attempt ≡ a
        → Halts ev command f policy random store (step_reading ev command r p) w
    reading-Halts zero a r p w l again b q same =
        one_step-Halts a r p w l again q same (λ r' p' w' less _ _. absurd (omega arith))
    reading-Halts (suc left) a r p w l again b q same =
        one_step-Halts a r p w l again q same
          (λ r' p' w' less q' same'. reading-Halts left a r' p' w' l again (omega arith) q' same')

    -- An attempt with `m` retries left.
    attempt-Halts :
        policy.max_retries + 1 < u32_mod → (m : ℕ) → Restarts ev command f policy random store m
    attempt-Halts bound zero p w l =
        reading-Halts (unvisited u (initial_reading command).visited) p.attempt
          (initial_reading command) p w (omega arith)
          (λ q e. last-Halts ev command f policy random store q (omega arith)) (omega arith)
          (initial_reading-Within command u confined) refl
    attempt-Halts bound (suc m) p w l =
        reading-Halts (unvisited u (initial_reading command).visited) p.attempt
          (initial_reading command) p w (omega arith)
          (λ q e.
            retry-Halts ev command f policy random store m q (omega arith) (attempt-Halts bound m))
          (omega arith) (initial_reading-Within command u confined) refl

    -- A command that declares and discovers only streams of some finite set always returns,
    -- whatever the store answers and others write, on any fuel from some bound on: it never loops
    -- and never panics, as long as the number of attempts fits in 32 bits.
    pub execute-Returns :
        (w : W)
        → policy.max_retries + 1 < u32_mod
        → (n : ℕ) × ((extra : ℕ)
            → (r : Result ℕ CommandError) × ((execute ev command f policy random store
                  (n + extra)
                  w).0
                ≡ returned r))
    unfolding execute step
    execute-Returns w bound =
        let (n, ends) =
          attempt-Halts bound policy.max_retries (at_phase new done) w
            (zero-add policy.max_retries) in
        (n, λ extra. ends (n + extra) (omega arith))
