-- ===== src/Execute/Steps.antt =====
-- What one step of the pipeline and one effect of the loop lead to, case by case.
use native.Mathlib.Nat.{add-zero, zero-add}
use eventcore.Prelude.{
  ℕ, ◌+◌, ◌%◌, ◌≡◌, refl, ap, ◌∙◌, List, [], ◌∷◌, map, length, none, some, Result, ok, err, arith,
  Result-cases, inl, inr, ◌⊎◌,
}
use eventcore.Prelude.HashMap.{HashMap}
use eventcore.Prelude.HashSet
use eventcore.Types.Error.{
  StreamId, StreamVersion, increment, usize_mod, EventStoreError, CommandError, event_store_error,
}
use eventcore.Types.Event.{Event}
use eventcore.Types.Writes.{StreamWrites, build_stream_writes_from_events}
use eventcore.Execute.Interface.{CommandLogic, EventStore}
use eventcore.Execute.Retry.{Float, RetryPolicy}
use eventcore.Execute.Pipeline.{
  read_stream, append_events, events_appended, slept, error, yield_effect, finished, Reading,
  awaiting_stream_read, awaiting_append, awaiting_retry_sleep, done, ExecutePipeline, at_phase,
  next_unvisited, initial_reading, end_stream, step_handling, step_reading, resume_append,
  resume_read, resume,
}
use eventcore.Execute.Shell.{pump_items, pump_stream_reads}
use eventcore.Execute.Atomic.{fold_events}

module _ {Any E S Value F W : Type 0} (ev : Event Any E) (command : CommandLogic E S Value)
    (f : Float F) (policy : RetryPolicy) (random : ℕ → F) (store : EventStore Any E Value W) where
  -- The state after the events of a stream, wherever the pipeline stood before.
  abbrev pub ended : StreamId → Reading S → List E → ℕ → Reading S
  ended k r es count =
      end_stream command k (record r { state = fold_events command r.state es }) (count % usize_mod)

  count_next : (n : ℕ) → increment (n % usize_mod) ≡ (n + 1) % usize_mod
  unfolding increment
  count_next n = omega arith

  pump_items-ok :
      (x : E) (items : List (Result E EventStoreError)) (k : StreamId) (r : Reading S) (n : ℕ)
      (p : ExecutePipeline S)
      → pump_items ev command f policy random
          (ok x ∷ items)
          (at_phase p (awaiting_stream_read k r (n % usize_mod)))
        ≡ pump_items ev command f policy random items (
            at_phase p (
              awaiting_stream_read k
                (record r { state = command.apply r.state x })
                ((n + 1) % usize_mod)))
  unfolding pump_items resume resume_read
  pump_items-ok x items k r n p =
      ap
        (λ m.
          pump_items ev command f policy random items
            (at_phase p (awaiting_stream_read k (record r { state = command.apply r.state x }) m)))
        (count_next n)

  pump_items-nil :
      (k : StreamId) (r : Reading S) (n : ℕ) (p : ExecutePipeline S)
      → pump_items ev command f policy random []
          (at_phase p (awaiting_stream_read k r (n % usize_mod)))
        ≡ step_reading ev command (ended k r [] (n + 0)) (at_phase p done)
  unfolding pump_items resume resume_read
  pump_items-nil k r n p = rw add-zero

  pump_items-err :
      (e : EventStoreError) (items : List (Result E EventStoreError)) (k : StreamId) (r : Reading S)
      (n : ℕ) (p : ExecutePipeline S)
      → (pump_items ev command f policy random
          (err e ∷ items)
          (at_phase p (awaiting_stream_read k r n))).0
        ≡ finished (error (event_store_error e))
  unfolding pump_items resume resume_read
  pump_items-err e items k r n p = refl

  -- Pumping a stream folds all its events, or ends the run with an error.
  pump_items_lem :
      (items : List (Result E EventStoreError)) (k : StreamId) (r : Reading S) (n : ℕ)
      (p : ExecutePipeline S)
      → ((es : List E) × (items ≡ map ok es)
          × (pump_items ev command f policy random items
                (at_phase p (awaiting_stream_read k r (n % usize_mod)))
              ≡ step_reading ev command (ended k r es (n + length es)) (at_phase p done)))
        ⊎ ((e : CommandError) × ((pump_items ev command f policy random items
                (at_phase p (awaiting_stream_read k r (n % usize_mod)))).0
              ≡ finished (error e)))
  pump_items_lem [] k r n p = inl ([], refl, pump_items-nil k r n p)
  pump_items_lem (err e ∷ items) k r n p =
      inr (event_store_error e, pump_items-err e items k r (n % usize_mod) p)
  pump_items_lem (ok x ∷ items) k r n p =
      elim (pump_items_lem items k (record r { state = command.apply r.state x }) (n + 1) p) [
        | inl (es, q, t) ↦ inl (
          x ∷ es,
          ap (λ xs. ok x ∷ xs) q,
          pump_items-ok x items k r n p
              ∙ (t
                  ∙ ap (λ m. step_reading ev command (ended k r (x ∷ es) m) (at_phase p done))
                      (omega arith)),
        )
        | inr (e, t) ↦ inr (e, ap (λ q. q.0) (pump_items-ok x items k r n p) ∙ t)
      ]

  pub step_reading-some :
      (r : Reading S) (p : ExecutePipeline S) (k : StreamId) (rest : List StreamId)
      → next_unvisited r.visited r.queue ≡ some (k, rest)
      → step_reading ev command r p ≡ (
        yield_effect (read_stream k),
        at_phase p (
            awaiting_stream_read k
              (record r { queue = rest; visited = HashSet.insert k r.visited })
              0),
      )
  unfolding step_reading
  step_reading-some r p k rest h = ground arith

  pub step_reading-none :
      (r : Reading S) (p : ExecutePipeline S)
      → next_unvisited r.visited r.queue ≡ none
      → step_reading ev command r p
        ≡ step_handling ev command r.stream_ids r.expected_versions r.state p
  unfolding step_reading
  step_reading-none r p h = ground arith

  pub step_handling-err :
      (ids : List StreamId) (m : HashMap StreamVersion) (s : S) (p : ExecutePipeline S)
      (e : CommandError)
      → command.handle s ≡ err e
      → (step_handling ev command ids m s p).0 ≡ finished (error e)
  unfolding step_handling
  step_handling-err ids m s p e h = ground arith

  pub step_handling-unbuilt :
      (ids : List StreamId) (m : HashMap StreamVersion) (s : S) (p : ExecutePipeline S)
      (events : List E) (e : CommandError)
      → command.handle s ≡ ok events
      → build_stream_writes_from_events ev events m ≡ err e
      → (step_handling ev command ids m s p).0 ≡ finished (error e)
  unfolding step_handling
  step_handling-unbuilt ids m s p events e h b = ground arith

  pub step_handling-built :
      (ids : List StreamId) (m : HashMap StreamVersion) (s : S) (p : ExecutePipeline S)
      (events : List E) (writes : StreamWrites Any)
      → command.handle s ≡ ok events
      → build_stream_writes_from_events ev events m ≡ ok writes
      → step_handling ev command ids m s p
        ≡ (yield_effect (append_events writes), at_phase p (awaiting_append ids))
  unfolding step_handling
  step_handling-built ids m s p events writes h b = ground arith

  pub resume-slept :
      (p : ExecutePipeline S)
      → p.phase ≡ awaiting_retry_sleep
      → resume ev command f policy random slept p
        ≡ step_reading ev command (initial_reading command) (at_phase p done)
  unfolding resume
  resume-slept p h = ground arith

  pub resume-appended :
      (p : ExecutePipeline S) (ids : List StreamId) (result : Result (Unit {0}) EventStoreError)
      → resume ev command f policy random
          (events_appended result)
          (at_phase p (awaiting_append ids))
        ≡ resume_append f policy random ids result (at_phase p done)
  unfolding resume
  resume-appended p ids result = refl

  pump-err :
      (k : StreamId) (p : ExecutePipeline S) (r : Reading S) (w : W) (e : EventStoreError)
      → (store.read_stream k w).0 ≡ err e
      → (pump_stream_reads ev command f policy random store k
          (at_phase p (awaiting_stream_read k r 0))
          w).0.0
        ≡ finished (error (event_store_error e))
  unfolding pump_stream_reads resume resume_read
  pump-err k p r w e h = ground arith

  pub pump-world :
      (k : StreamId) (p : ExecutePipeline S) (w : W)
      → (pump_stream_reads ev command f policy random store k p w).1 ≡ (store.read_stream k w).1
  unfolding pump_stream_reads
  pump-world k p w = ground arith

  pump-ok :
      (k : StreamId) (p : ExecutePipeline S) (w : W) (items : List (Result E EventStoreError))
      → (store.read_stream k w).0 ≡ ok items
      → (pump_stream_reads ev command f policy random store k p w).0
        ≡ pump_items ev command f policy random items p
  unfolding pump_stream_reads
  pump-ok k p w items h = ground arith

  -- Reading one stream: it is folded whole and the read phase goes on, or the run ends with an
  -- error.
  pub pump_stream_reads_lem :
      (k : StreamId) (r : Reading S) (p : ExecutePipeline S) (w : W)
      → ((es : List E) × ((store.read_stream k w).0 ≡ ok (map ok es))
          × ((pump_stream_reads ev command f policy random store k
                (at_phase p (awaiting_stream_read k r 0))
                w).0
              ≡ step_reading ev command (ended k r es (length es)) (at_phase p done)))
        ⊎ ((e : CommandError) × ((pump_stream_reads ev command f policy random store k
                (at_phase p (awaiting_stream_read k r 0))
                w).0.0
              ≡ finished (error e)))
  pump_stream_reads_lem k r p w =
      let at = at_phase p (awaiting_stream_read k r 0) in
      elim (Result-cases (store.read_stream k w).0) [
        | inr (e, h) ↦ inr (event_store_error e, pump-err k p r w e h)
        | inl (items, h) ↦ elim (pump_items_lem items k r 0 p) [
          | inr (e, t) ↦ inr (e, ap (λ q. q.0) (pump-ok k at w items h) ∙ t)
          | inl (es, q, t) ↦ inl (
            es,
            h ∙ ap ok q,
            pump-ok k at w items h
                ∙ (t
                    ∙ ap (λ m. step_reading ev command (ended k r es m) (at_phase p done))
                        (zero-add (length es))),
          )
        ]
      ]
