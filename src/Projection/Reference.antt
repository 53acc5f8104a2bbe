-- ===== src/Projection/Reference.antt =====
-- What a projection in batch mode is to do, by direct recursion: read one page, try each of its
-- events in order, and save the position of each that is settled.
use Prim.Native.String
use eventcore.Prelude.{
  ℕ, zero, suc, ◌+◌, String, List, [], ◌∷◌, Option, none, Result, ok, err, if◌then◌else◌,
}
use eventcore.Types.Query.{StreamPosition, FailureStrategy, fatal, skip, retry}
use eventcore.Projection.Projector.{Projector, Backend}
use eventcore.Projection.Pipeline.{
  Float, ProjectionError, failed, Settings, poll_filter, poll_page, retry_delay,
}

-- What becomes of an event: it is settled, applied or skipped, or the projection stops.
pub data Verdict (C P W : Type 0) : Type 0 where
  settled : P → C → W → Verdict C P W
  stopped : ProjectionError → W → Verdict C P W

module _ {E X C P F W : Type 0} (projector : Projector E X C P) (event_type_name : String)
    (f : Float F) (settings : Settings F) (backend : Backend E W) where
  -- A checkpoint that could not be saved stops nothing.
  unfoldable pub save_position : StreamPosition → P → W → W
  save_position position p w =
      if settings.has_checkpoint_store then (backend.save (projector.name p) position w).1 else w

  unfoldable pub answer :
      StreamPosition → C → W → (P → C → W → Verdict C P W) → FailureStrategy × P → Verdict C P W
  answer position c w again (fatal, p) = stopped (failed "projector apply failed") w
  answer position c w again (skip, p) = settled p c (save_position position p w)
  answer position c w again (retry, p) = again p c w

  unfoldable pub judge :
      StreamPosition
      → ℕ
      → W
      → (P → C → W → Verdict C P W)
      → Result (Unit {0}) X × P × C
      → Verdict C P W
  judge position n w again (ok _, p, c) = settled p c (save_position position p w)
  judge position n w again (err x, p, c) =
      answer position c w again
        (projector.on_error p (record { error = x; position = position; retry_count = n }))

  -- An event that was retried `n` times, with `m` retries left.
  unfoldable pub try_event : ℕ → ℕ → E × StreamPosition → P → C → W → Verdict C P W
  try_event zero n (event, position) p c w =
      judge position n w
        (λ p' c' w'. stopped (failed "projector apply failed after max retries") w')
        (projector.apply p event position c)
  try_event (suc m) n (event, position) p c w =
      judge position n w
        (λ p' c' w'.
          try_event m (n + 1) (event, position) p' c'
            (backend.sleep (retry_delay f settings.event_retry_config (n + 1)) w'))
        (projector.apply p event position c)

  unfoldable pub then_go_on :
      (P → C → W → Result (Unit {0}) ProjectionError × W)
      → Verdict C P W
      → Result (Unit {0}) ProjectionError × W
  then_go_on go (settled p c w) = go p c w
  then_go_on go (stopped e w) = (err e, w)

  unfoldable pub project_events :
      List (E × StreamPosition) → P → C → W → Result (Unit {0}) ProjectionError × W
  project_events [] p c w = (ok tt, w)
  project_events (event ∷ rest) p c w =
      then_go_on (project_events rest)
        (try_event settings.event_retry_config.max_retry_attempts 0 event p c w)

  unfoldable pub after_read :
      P
      → (String → W → Result (Unit {0}) ProjectionError × W)
      → Result (List (E × StreamPosition)) String × W
      → Result (Unit {0}) ProjectionError × W
  after_read p refused (ok events, w) = project_events events p projector.default_context w
  after_read p refused (err e, w) = refused e w

  -- A page is read, with `m` failures left to bear.
  unfoldable pub poll : ℕ → Option StreamPosition → P → W → Result (Unit {0}) ProjectionError × W
  poll zero checkpoint p w =
      after_read p
        (λ e w'. (err (failed (String.◌++◌ "failed to read events after max retries: " e)), w'))
        (backend.read_events (poll_filter event_type_name) (poll_page checkpoint) w)
  poll (suc m) checkpoint p w =
      after_read p
        (λ e w'. poll m checkpoint p (backend.sleep settings.poll_config.poll_failure_backoff w'))
        (backend.read_events (poll_filter event_type_name) (poll_page checkpoint) w)

  -- The last checkpoint was asked for.
  unfoldable pub after_load :
      P → Result (Option StreamPosition) String × W → Result (Unit {0}) ProjectionError × W
  after_load p (ok checkpoint, w) =
      poll settings.poll_config.max_consecutive_poll_failures checkpoint p w
  after_load p (err e, w) = (
    err (
        failed (
          String.◌++◌ "failed to load checkpoint for projector '"
            (String.◌++◌ (projector.name p) (String.◌++◌ "': " e)))),
    w,
  )

  unfoldable pub project : P → W → Result (Unit {0}) ProjectionError × W
  project p w =
      if settings.has_checkpoint_store
      then after_load p (backend.load (projector.name p) w)
      else poll settings.poll_config.max_consecutive_poll_failures none p w
