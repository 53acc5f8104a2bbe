-- ===== src/Execute/Halting.antt =====
-- From which steps the loop of `execute` returns, if its next attempt does.
use eventcore.Prelude.{
  ℕ, zero, suc, ◌+◌, ◌%◌, ◌≤◌, ◌<◌, ◌≡◌, refl, List, true, Result, ok, err, arith, ltb,
  Result-cases, inl, inr,
}
use eventcore.Prelude.HashMap.{HashMap}
use eventcore.Types.Error.{
  StreamId, StreamVersion, EventStoreError, version_conflict, CommandError, event_store_error,
  concurrency_error, u32_mod,
}
use eventcore.Types.Event.{Event}
use eventcore.Types.Writes.{StreamWrites, build_stream_writes_from_events}
use eventcore.Execute.Interface.{CommandLogic, EventStore}
use eventcore.Execute.Retry.{Float, RetryPolicy}
use eventcore.Execute.Pipeline.{
  read_stream, append_events, sleep, events_appended, slept, PipelineOutcome, success, error,
  PipelineStep, yield_effect, finished, awaiting_append, awaiting_retry_sleep, done,
  ExecutePipeline, at_phase, initial_reading, step_reading, step_handling, retry, resume_append,
  resume,
}
use eventcore.Execute.Shell.{returned, pump_stream_reads, drive}
use eventcore.Execute.Steps.{
  step_handling-err, step_handling-unbuilt, step_handling-built, resume-slept, resume-appended,
}

ltb-true : (a b : ℕ) → a < b → ltb a b ≡ true
ltb-true a b h = ground arith

module _ {Any E S Value F W : Type 0} (ev : Event Any E) (command : CommandLogic E S Value)
    (f : Float F) (policy : RetryPolicy) (random : ℕ → F) (store : EventStore Any E Value W) where
  -- From here the loop returns, on any fuel from some bound on.
  abbrev pub Halts : PipelineStep Any × ExecutePipeline S → W → Type 0
  Halts o w =
      (n : ℕ) × ((fuel : ℕ)
        → n ≤ fuel
        → (r : Result ℕ CommandError) × ((drive ev command f policy random store fuel o.0 o.1 w).0
            ≡ returned r))

  pub finished_drive :
      (x : PipelineOutcome) (p : ExecutePipeline S) (w : W) (fuel : ℕ)
      → 1 ≤ fuel
      → (r : Result ℕ CommandError) × ((drive ev command f policy random store fuel
            (finished x)
            p
            w).0
          ≡ returned r)
  unfolding drive
  finished_drive x p w zero l = absurd (omega arith)
  finished_drive (success n) p w (suc fuel) l = (ok n, refl)
  finished_drive (error e) p w (suc fuel) l = (err e, refl)

  pub finished-Halts :
      (o : PipelineStep Any × ExecutePipeline S) (x : PipelineOutcome) (w : W)
      → o.0 ≡ finished x
      → Halts o w
  finished-Halts o x w h = rw h (1, finished_drive x o.1 w)

  pub read_drive :
      (k : StreamId) (p : ExecutePipeline S) (w : W)
      (h : Halts
        (pump_stream_reads ev command f policy random store k p w).0
        (pump_stream_reads ev command f policy random store k p w).1)
      (fuel : ℕ)
      → h.0 + 1 ≤ fuel
      → (r : Result ℕ CommandError) × ((drive ev command f policy random store fuel
            (yield_effect (read_stream k))
            p
            w).0
          ≡ returned r)
  unfolding drive
  read_drive k p w h zero l = absurd (omega arith)
  read_drive k p w h (suc fuel) l = h.1 fuel (omega arith)

  pub append_drive :
      (writes : StreamWrites Any) (p : ExecutePipeline S) (w : W)
      (h : Halts
        (resume ev command f policy random (events_appended (store.append_events writes w).0) p)
        (store.append_events writes w).1)
      (fuel : ℕ)
      → h.0 + 1 ≤ fuel
      → (r : Result ℕ CommandError) × ((drive ev command f policy random store fuel
            (yield_effect (append_events writes))
            p
            w).0
          ≡ returned r)
  unfolding drive
  append_drive writes p w h zero l = absurd (omega arith)
  append_drive writes p w h (suc fuel) l = h.1 fuel (omega arith)

  pub sleep_drive :
      (ms : ℕ) (p : ExecutePipeline S) (w : W)
      (h : Halts (resume ev command f policy random slept p) (store.sleep ms w)) (fuel : ℕ)
      → h.0 + 1 ≤ fuel
      → (r : Result ℕ CommandError) × ((drive ev command f policy random store fuel
            (yield_effect (sleep ms))
            p
            w).0
          ≡ returned r)
  unfolding drive
  sleep_drive ms p w h zero l = absurd (omega arith)
  sleep_drive ms p w h (suc fuel) l = h.1 fuel (omega arith)

  -- What a retry leads to.
  abbrev pub Retries : ExecutePipeline S → Type 0
  Retries p = (ids : List StreamId) (w : W) → Halts (retry {Any = Any} f policy random ids p) w

  pub resume_append-ok :
      (ids : List StreamId) (p : ExecutePipeline S)
      → p.attempt + 1 < u32_mod
      → (resume_append {Any = Any} f policy random ids (ok tt) p).0
        ≡ finished (success ((p.attempt + 1) % u32_mod))
  unfolding resume_append
  resume_append-ok ids p l = ground arith

  pub succeeded-Halts :
      (ids : List StreamId) (p : ExecutePipeline S) (w : W)
      → p.attempt + 1 < u32_mod
      → Halts (resume_append f policy random ids (ok tt) p) w
  succeeded-Halts ids p w l =
      finished-Halts (resume_append f policy random ids (ok tt) p)
        (success ((p.attempt + 1) % u32_mod)) w (resume_append-ok ids p l)

  pub resume_append-Halts :
      (ids : List StreamId) (x : Result (Unit {0}) EventStoreError) (p : ExecutePipeline S) (w : W)
      → p.attempt + 1 < u32_mod
      → Retries p
      → Halts (resume_append f policy random ids x p) w
  unfolding resume_append
  resume_append-Halts ids (ok _) p w l again = unfold resume_append in (succeeded-Halts ids p w l)
  resume_append-Halts ids (err (version_conflict _ _ _)) p w l again = again ids w
  resume_append-Halts ids (err e) p w l again =
      finished-Halts (finished (error (event_store_error e)), p) (error (event_store_error e)) w
        refl

  pub over_bound :
      (ids : List StreamId) (p : ExecutePipeline S)
      → p.attempt ≡ policy.max_retries
      → (retry {Any = Any} f policy random ids p).0
        ≡ finished (error (concurrency_error policy.max_retries))
  unfolding retry
  over_bound ids p h = ground arith

  pub last-Halts : (p : ExecutePipeline S) → p.attempt ≡ policy.max_retries → Retries p
  last-Halts p h ids w =
      finished-Halts (retry f policy random ids p) (error (concurrency_error policy.max_retries)) w
        (over_bound ids p h)

  -- Another attempt, with `m` retries left after it.
  abbrev pub Restarts : ℕ → Type 0
  Restarts m =
      (p : ExecutePipeline S) (w : W)
      → p.attempt + m ≡ policy.max_retries
      → Halts (step_reading ev command (initial_reading command) p) w

  pub asleep-Halts :
      (m ms : ℕ) (p : ExecutePipeline S) (w : W)
      → p.phase ≡ awaiting_retry_sleep
      → p.attempt + m ≡ policy.max_retries
      → Restarts m
      → Halts (yield_effect (sleep ms), p) w
  asleep-Halts m ms p w h l restart =
      let h : Halts (resume ev command f policy random slept p) (store.sleep ms w) =
        rw (resume-slept ev command f policy random store p h)
          (restart (at_phase p done) (store.sleep ms w) l) in
      (h.0 + 1, sleep_drive ms p w h)

  pub retry-Halts :
      (m : ℕ) (p : ExecutePipeline S)
      → p.attempt + suc m ≡ policy.max_retries
      → Restarts m
      → Retries p
  unfolding retry
  retry-Halts m p h restart ids w =
      rw (ltb-true p.attempt policy.max_retries (omega arith))
        (asleep-Halts m _ _ w refl (omega arith) restart)

  pub appending-Halts :
      (ids : List StreamId) (writes : StreamWrites Any) (p : ExecutePipeline S) (w : W)
      → p.attempt + 1 < u32_mod
      → ((q : ExecutePipeline S) → q.attempt ≡ p.attempt → Retries q)
      → Halts (yield_effect (append_events writes), at_phase p (awaiting_append ids)) w
  appending-Halts ids writes p w l again =
      let result = store.append_events writes w in
      let h : Halts
          (resume ev command f policy random (events_appended result.0)
            (at_phase p (awaiting_append ids)))
          result.1 =
        rw (resume-appended ev command f policy random store p ids result.0) (
          resume_append-Halts ids result.0 (at_phase p done) result.1 l
            (again (at_phase p done) refl)) in
      (h.0 + 1, append_drive writes (at_phase p (awaiting_append ids)) w h)

  pub handling-Halts :
      (ids : List StreamId) (m : HashMap StreamVersion) (s : S) (p : ExecutePipeline S) (w : W)
      → p.attempt + 1 < u32_mod
      → ((q : ExecutePipeline S) → q.attempt ≡ p.attempt → Retries q)
      → Halts (step_handling ev command ids m s p) w
  handling-Halts ids m s p w l again = elim (Result-cases (command.handle s)) [
    | inr (e, h) ↦
        finished-Halts (step_handling ev command ids m s p) (error e) w
          (step_handling-err ev command f policy random store ids m s p e h)
    | inl (events, h) ↦ elim (Result-cases (build_stream_writes_from_events ev events m)) [
      | inr (e, b) ↦
          finished-Halts (step_handling ev command ids m s p) (error e) w
            (step_handling-unbuilt ev command f policy random store ids m s p events e h b)
      | inl (writes, b) ↦
          rw (step_handling-built ev command f policy random store ids m s p events writes h b)
            (appending-Halts ids writes p w l again)
    ]
  ]
