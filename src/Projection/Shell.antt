-- ===== src/Projection/Shell.antt =====
-- `ProjectionRunner::run` and `run_projection` of eventcore/src/projection.rs: the loop that carries
-- out the effects of the pipeline.
use eventcore.Prelude.{ℕ, zero, suc, String, true, none, Result, ok, err, if◌then◌else◌}
use eventcore.Projection.Projector.{Projector, Backend}
use eventcore.Projection.Config.{
  ProjectionConfig, to_poll_mode, to_poll_config, to_event_retry_config,
}
use eventcore.Projection.Pipeline.{
  Float, ProjectionError, leadership_error, ProjectionEffect, read_events, load_checkpoint,
  save_checkpoint, sleep, ProjectionEffectResult, events_read, checkpoint_loaded, checkpoint_saved,
  slept, ProjectionStep, yield_effect, finished, panicked, ProjectionPipeline, Settings, new, step,
  resume,
}

-- How a run ends: it returns, it panics, or the fuel given to the model is used up.
pub data Run : Type 0 where
  returned : Result (Unit {0}) ProjectionError → Run
  crashed : Run
  out_of_fuel : Run

module _ {E W F : Type 0} (settings : Settings F) (backend : Backend E W) where
  -- The arms of the loop. Without a checkpoint store nothing is loaded or saved.
  unfoldable pub dispatch : ProjectionEffect → W → ProjectionEffectResult E × W
  dispatch (load_checkpoint name) w =
      if settings.has_checkpoint_store
      then (let (r, w') = backend.load name w in (checkpoint_loaded r, w'))
      else (checkpoint_loaded (ok none), w)
  dispatch (read_events filter page) w =
      let (r, w') = backend.read_events filter page w in (events_read r, w')
  dispatch (save_checkpoint name position) w =
      if settings.has_checkpoint_store
      then (let (r, w') = backend.save name position w in (checkpoint_saved r, w'))
      else (checkpoint_saved (ok tt), w)
  dispatch (sleep duration) w = (slept, backend.sleep duration w)

module _ {E X C P F W : Type 0} (projector : Projector E X C P) (event_type_name : String)
    (f : Float F) (settings : Settings F) (backend : Backend E W) where
  -- The loop of `run`, on fuel: one unit for each effect.
  unfoldable pub drive : ℕ → ProjectionStep → ProjectionPipeline E C P → W → Run × W
  drive zero s p w = (out_of_fuel, w)
  drive (suc fuel) (finished result) p w = (returned result, w)
  drive (suc fuel) panicked p w = (crashed, w)
  drive (suc fuel) (yield_effect effect) p w =
      let (result, w') = dispatch settings backend effect w in
      let (s, p') = resume projector event_type_name f settings result p in drive fuel s p' w'

  -- `ProjectionRunner::run`
  unfoldable pub run : ℕ → P → W → Run × W
  run fuel p w =
      let (s, p') = step projector event_type_name f settings (new projector settings p) in
      drive fuel s p' w

-- How `run_projection` sets up its runner, which takes the backend for its checkpoint store.
unfoldable pub config_settings : {F : Type 0} → ProjectionConfig F → Settings F
config_settings config = record {
  has_checkpoint_store = true;
  poll_mode = to_poll_mode config;
  poll_config = to_poll_config config;
  event_retry_config = to_event_retry_config config;
}

module _ {E X C P F W G : Type 0} (projector : Projector E X C P) (event_type_name : String)
    (f : Float F) (backend : Backend E W) (acquire : String → W → Result G String × W)
    (release : G → W → W) where
  -- What follows the attempt to become leader; the guard is dropped at the end.
  unfoldable pub led_run : ProjectionConfig F → ℕ → P → Result G String × W → Run × W
  led_run config fuel p (err e, w) = (returned (err (leadership_error e)), w)
  led_run config fuel p (ok guard, w) =
      let (r, w') = run projector event_type_name f (config_settings config) backend fuel p w in
      (r, release guard w')

  -- `run_projection`. `acquire` is the backend's `try_acquire`, and `release` drops the guard.
  unfoldable pub run_projection : ProjectionConfig F → ℕ → P → W → Run × W
  run_projection config fuel p w = led_run config fuel p (acquire (projector.name p) w)
