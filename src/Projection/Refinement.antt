-- ===== src/Projection/Refinement.antt =====
-- In batch mode the state machine and its loop do what the reference does, and end.
use native.Mathlib.Nat.{zero-add}
use Prim.Native.String
use eventcore.Prelude.{
  ℕ, zero, suc, ◌+◌, ◌≡◌, refl, String, List, true, false, Option, none, Result, ok, err, arith,
  Bool-cases, inl, inr,
}
use eventcore.Types.Query.{StreamPosition}
use eventcore.Projection.Projector.{Projector, Backend}
use eventcore.Projection.Config.{batch, ProjectionConfig}
use eventcore.Projection.Pipeline.{
  leadership_error, Float, ProjectionError, failed, read_events, load_checkpoint, sleep,
  yield_effect, Polling, loading_checkpoint, awaiting_checkpoint, poll_events, awaiting_events,
  awaiting_poll_failure_sleep, done, ProjectionPipeline, Settings, at_phase, poll_filter, poll_page,
  new, step, resume_poll, resume_checkpoint, resume,
}
use eventcore.Projection.Shell.{returned, dispatch, run, config_settings}
use eventcore.Projection.Reference.{after_read, after_load, poll, project}
use eventcore.Projection.Loop.{leb-true, leb-false, Ends, finish-Ends, yield-Ends, dispatch_load}
use eventcore.Projection.Events.{page-Ends}

module _ {E X C P F W : Type 0} (projector : Projector E X C P) (event_type_name : String)
    (f : Float F) (settings : Settings F) (backend : Backend E W) where
  -- The polling that a pipeline starts with, after `n` failures.
  abbrev polling : Option StreamPosition → ℕ → Polling C
  polling checkpoint n = record {
    last_checkpoint = checkpoint;
    ctx = projector.default_context;
    consecutive_failures = n;
  }

  -- A failed read, of which the reference makes `refused`.
  abbrev Refused :
      Option StreamPosition
      → ℕ
      → ProjectionPipeline E C P
      → (String → W → Result (Unit {0}) ProjectionError × W)
      → Type 0
  Refused checkpoint n p refused =
      (e : String) (w : W)
      → Ends projector event_type_name f settings backend
          (resume_poll projector event_type_name f settings (polling checkpoint n) (err e)
            (at_phase p done))
          w (refused e w)

  read-Ends :
      (n : ℕ) (checkpoint : Option StreamPosition) (p : ProjectionPipeline E C P)
      (refused : String → W → Result (Unit {0}) ProjectionError × W)
      (q : Result (List (E × StreamPosition)) String × W)
      → settings.poll_mode ≡ batch
      → Refused checkpoint n p refused
      → Ends projector event_type_name f settings backend
          (resume_poll projector event_type_name f settings
            (polling checkpoint n)
            q.0
            (at_phase p done))
          q.1
          (after_read projector event_type_name f settings backend p.projector refused q)
  unfolding after_read
  read-Ends n checkpoint p refused (ok events, w) b h =
      unfold resume_poll step in
      (page-Ends projector event_type_name f settings backend events b
        (record {
          events = events;
          event_index = 0;
          retry_count = 0;
          last_checkpoint = checkpoint;
          ctx = projector.default_context;
        })
        (at_phase p done) w refl refl)
  read-Ends n checkpoint p refused (err e, w) b h = h e w

  -- A poll, with `m` failures left to bear.
  poll-Ends :
      (m n : ℕ) (checkpoint : Option StreamPosition) (p : ProjectionPipeline E C P) (w : W)
      → n + m ≡ settings.poll_config.max_consecutive_poll_failures
      → settings.poll_mode ≡ batch
      → Ends projector event_type_name f settings backend
          (step projector event_type_name f settings
            (at_phase p (poll_events (polling checkpoint n))))
          w
          (poll projector event_type_name f settings backend m checkpoint p.projector w)
  unfolding step poll resume dispatch resume_poll
  poll-Ends zero n checkpoint p w l b =
      yield-Ends projector event_type_name f settings backend
        (read_events (poll_filter event_type_name) (poll_page checkpoint))
        (at_phase p (awaiting_events (polling checkpoint n))) w
        (poll projector event_type_name f settings backend zero checkpoint p.projector w)
        (read-Ends n checkpoint p
          (λ e w'. (err (failed (String.◌++◌ "failed to read events after max retries: " e)), w'))
          (backend.read_events (poll_filter event_type_name) (poll_page checkpoint) w) b
          (λ e w'.
            rw (leb-true settings.poll_config.max_consecutive_poll_failures n (omega arith)) (
              finish-Ends projector event_type_name f settings backend
                (err (failed (String.◌++◌ "failed to read events after max retries: " e)))
                (at_phase p done) w')))
  poll-Ends (suc m) n checkpoint p w l b =
      yield-Ends projector event_type_name f settings backend
        (read_events (poll_filter event_type_name) (poll_page checkpoint))
        (at_phase p (awaiting_events (polling checkpoint n))) w
        (poll projector event_type_name f settings backend (suc m) checkpoint p.projector w)
        (read-Ends n checkpoint p
          (λ e w'.
            poll projector event_type_name f settings backend m checkpoint p.projector
              (backend.sleep settings.poll_config.poll_failure_backoff w'))
          (backend.read_events (poll_filter event_type_name) (poll_page checkpoint) w) b
          (λ e w'.
            rw (leb-false settings.poll_config.max_consecutive_poll_failures n (omega arith)) (
              yield-Ends projector event_type_name f settings backend
                (sleep settings.poll_config.poll_failure_backoff)
                (at_phase p (awaiting_poll_failure_sleep (polling checkpoint (n + 1)))) w'
                (poll projector event_type_name f settings backend m checkpoint p.projector
                  (backend.sleep settings.poll_config.poll_failure_backoff w'))
                (poll-Ends m (n + 1) checkpoint p
                  (backend.sleep settings.poll_config.poll_failure_backoff w') (omega arith) b))))

  load-Ends :
      (p : ProjectionPipeline E C P) (q : Result (Option StreamPosition) String × W)
      → settings.poll_mode ≡ batch
      → Ends projector event_type_name f settings backend
          (resume_checkpoint projector event_type_name f settings q.0 p)
          q.1
          (after_load projector event_type_name f settings backend p.projector q)
  unfolding resume_checkpoint after_load
  load-Ends p (ok checkpoint, w) b =
      poll-Ends settings.poll_config.max_consecutive_poll_failures 0 checkpoint p w
        (zero-add settings.poll_config.max_consecutive_poll_failures) b
  load-Ends p (err e, w) b =
      finish-Ends projector event_type_name f settings backend
        (err (
          failed (
            String.◌++◌ "failed to load checkpoint for projector '"
              (String.◌++◌ (projector.name p.projector) (String.◌++◌ "': " e)))))
        p w

  start_store :
      (p : P)
      → settings.has_checkpoint_store ≡ true
      → new projector settings p ≡ record { projector = p; phase = loading_checkpoint }
  unfolding new
  start_store p h = simp h

  start_bare :
      (p : P)
      → settings.has_checkpoint_store ≡ false
      → new projector settings p ≡ record { projector = p; phase = poll_events (polling none 0) }
  unfolding new
  start_bare p h = simp h

  project_store :
      (p : P) (w : W)
      → settings.has_checkpoint_store ≡ true
      → project projector event_type_name f settings backend p w
        ≡ after_load projector event_type_name f settings backend p
            (backend.load (projector.name p) w)
  unfolding project
  project_store p w h = simp h

  project_bare :
      (p : P) (w : W)
      → settings.has_checkpoint_store ≡ false
      → project projector event_type_name f settings backend p w
        ≡ poll projector event_type_name f settings backend
            settings.poll_config.max_consecutive_poll_failures none p w
  unfolding project
  project_bare p w h = simp h

  load_effect-Ends :
      (p : P) (w : W)
      → settings.has_checkpoint_store ≡ true
      → settings.poll_mode ≡ batch
      → Ends projector event_type_name f settings backend
          (
            yield_effect (load_checkpoint (projector.name p)),
            record { projector = p; phase = awaiting_checkpoint },
          )
          w
          (after_load projector event_type_name f settings backend p
            (backend.load (projector.name p) w))
  unfolding resume
  load_effect-Ends p w store b =
      yield-Ends projector event_type_name f settings backend (load_checkpoint (projector.name p))
        (record { projector = p; phase = awaiting_checkpoint }) w
        (after_load projector event_type_name f settings backend p
          (backend.load (projector.name p) w))
        (rw (dispatch_load projector event_type_name f settings backend (projector.name p) w store)
          (load-Ends (record { projector = p; phase = done }) (backend.load (projector.name p) w)
            b))

  start-Ends :
      (p : P) (w : W)
      → settings.poll_mode ≡ batch
      → Ends projector event_type_name f settings backend
          (step projector event_type_name f settings (new projector settings p))
          w
          (project projector event_type_name f settings backend p w)
  start-Ends p w b = elim (Bool-cases settings.has_checkpoint_store) [
    | inl store ↦
        rw (start_store p store, project_store p w store)
          (unfold step in (load_effect-Ends p w store b))
    | inr bare ↦
        rw (start_bare p bare, project_bare p w bare)
          (unfold step in
            (poll-Ends settings.poll_config.max_consecutive_poll_failures 0 none
              (record { projector = p; phase = done }) w
              (zero-add settings.poll_config.max_consecutive_poll_failures) b))
  ]

  -- In batch mode a run returns, on any fuel from some bound on, and what it returns, and the world
  -- that it leaves, are the reference's: one page is read, with as many failed reads borne as the
  -- configuration allows; its events are tried in order, each at most once and `max_retry_attempts`
  -- times more; the position of each that is applied or skipped is saved before the next is tried;
  -- and the first that is fatal, or fails with no retries left, ends the run.
  pub run-eq-project :
      (p : P) (w : W)
      → settings.poll_mode ≡ batch
      → (n : ℕ) × ((extra : ℕ)
          → run projector event_type_name f settings backend (n + extra) p w ≡ (
            returned (project projector event_type_name f settings backend p w).0,
            (project projector event_type_name f settings backend p w).1,
          ))
  unfolding run
  run-eq-project p w b =
      let (n, ends) = start-Ends p w b in (n, λ extra. ends (n + extra) (omega arith))

module _ {E X C P F W G : Type 0} (projector : Projector E X C P) (event_type_name : String)
    (f : Float F) (backend : Backend E W) (acquire : String → W → Result G String × W)
    (release : G → W → W) where
  -- A projection in batch mode under leadership, by the reference.
  abbrev pub led_project :
      ProjectionConfig F → P → Result G String × W → Result (Unit {0}) ProjectionError × W
  led_project config p (err e, w) = (err (leadership_error e), w)
  led_project config p (ok guard, w) =
      let (r, w') = project projector event_type_name f (config_settings config) backend p w in
      (r, release guard w')
