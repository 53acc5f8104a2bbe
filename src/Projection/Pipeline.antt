-- ===== src/Projection/Pipeline.antt =====
-- The state machine of eventcore/src/projection_pipeline.rs. Log messages are not modelled.
use Prim.Native.String
use eventcore.Prelude.{
  ℕ, ◌+◌, ◌-◌, ◌%◌, min, String, List, [], ◌∷◌, drop, Bool, Option, none, some, Result, ok, err,
  leb, if◌then◌else◌,
}
use Prim.Native.Nat.{◌/◌}
use eventcore.Types.Error.{u32_mod}
use eventcore.Types.Query.{
  StreamPosition, EventPage, first, after, EventFilter, all_events, with_event_type,
  FailureStrategy, fatal, skip, retry,
}
use eventcore.Projection.Projector.{Duration, from_millis, Projector}
use eventcore.Projection.Config.{PollMode, batch, continuous, PollConfig, EventRetryConfig}

-- The part of `f64` that the backoff uses. `to_u64` is the cast, which saturates, and the exponent
-- of `powi` is the 32 bits of an `i32`.
pub record Float (F : Type 0) : Type 0 where
  pub of_u128 : ℕ → F
  pub to_u64 : F → ℕ
  pub mul : F → F → F
  pub powi : F → ℕ → F

pub data ProjectionError : Type 0 where
  failed : String → ProjectionError
  leadership_error : String → ProjectionError

pub data ProjectionEffect : Type 0 where
  read_events : EventFilter → EventPage → ProjectionEffect
  load_checkpoint : String → ProjectionEffect
  save_checkpoint : String → StreamPosition → ProjectionEffect
  sleep : Duration → ProjectionEffect

pub data ProjectionEffectResult (E : Type 0) : Type 0 where
  events_read : Result (List (E × StreamPosition)) String → ProjectionEffectResult E
  checkpoint_loaded : Result (Option StreamPosition) String → ProjectionEffectResult E
  checkpoint_saved : Result (Unit {0}) String → ProjectionEffectResult E
  slept : ProjectionEffectResult E

-- `panicked` stands for a panic inside the call.
pub data ProjectionStep : Type 0 where
  yield_effect : ProjectionEffect → ProjectionStep
  finished : Result (Unit {0}) ProjectionError → ProjectionStep
  panicked : ProjectionStep

-- The fields of the phases in which events are polled.
pub record Polling (C : Type 0) : Type 0 where
  pub last_checkpoint : Option StreamPosition
  pub ctx : C
  pub consecutive_failures : ℕ

-- The fields of the phases in which an event is tried.
pub record Processing (E C : Type 0) : Type 0 where
  pub events : List (E × StreamPosition)
  pub event_index : ℕ
  pub retry_count : ℕ
  pub last_checkpoint : Option StreamPosition
  pub ctx : C

-- The fields of the phases in which a checkpoint is saved.
pub record Saving (E C : Type 0) : Type 0 where
  pub events : List (E × StreamPosition)
  pub event_index : ℕ
  pub last_checkpoint : Option StreamPosition
  pub ctx : C

pub data ProjectionPhase (E C : Type 0) : Type 0 where
  loading_checkpoint : ProjectionPhase E C
  awaiting_checkpoint : ProjectionPhase E C
  poll_events : Polling C → ProjectionPhase E C
  awaiting_events : Polling C → ProjectionPhase E C
  processing_events : Processing E C → ProjectionPhase E C
  awaiting_checkpoint_save : Saving E C → ProjectionPhase E C
  awaiting_skip_checkpoint_save : Saving E C → ProjectionPhase E C
  awaiting_event_retry_sleep : Processing E C → ProjectionPhase E C
  awaiting_poll_failure_sleep : Polling C → ProjectionPhase E C
  awaiting_poll_sleep : Option StreamPosition → C → ProjectionPhase E C
  done : ProjectionPhase E C

-- The configuration never changes, and is a parameter below. `projector` is its state.
pub record ProjectionPipeline (E C P : Type 0) : Type 0 where
  pub projector : P
  pub phase : ProjectionPhase E C

-- What a pipeline is made of, beside the projector and the phase.
pub record Settings (F : Type 0) : Type 0 where
  pub has_checkpoint_store : Bool
  pub poll_mode : PollMode
  pub poll_config : PollConfig
  pub event_retry_config : EventRetryConfig F

module _ {E C P : Type 0} where
  abbrev pub at_phase : ProjectionPipeline E C P → ProjectionPhase E C → ProjectionPipeline E C P
  at_phase p phase = record p { phase = phase }

module _ {E C : Type 0} where
  -- The fields of a pipeline that goes on to the next event.
  abbrev pub next_event : Saving E C → Processing E C
  next_event s = record {
    events = s.events;
    event_index = s.event_index + 1;
    retry_count = 0;
    last_checkpoint = s.last_checkpoint;
    ctx = s.ctx;
  }

module _ {E C : Type 0} where
  -- The fields when the event at the index was applied or skipped.
  abbrev pub settled_at : StreamPosition → Processing E C → C → Saving E C
  settled_at position s ctx = record {
    events = s.events;
    event_index = s.event_index;
    last_checkpoint = some position;
    ctx = ctx;
  }

-- The filter and the page of a poll.
unfoldable pub poll_filter : String → EventFilter
poll_filter event_type_name = with_event_type all_events event_type_name

unfoldable pub poll_page : Option StreamPosition → EventPage
poll_page none = first 1000
poll_page (some position) = after position 1000

module _ {F : Type 0} (f : Float F) where
  -- The delay before the `n`-th retry of an event.
  unfoldable pub retry_delay : EventRetryConfig F → ℕ → Duration
  retry_delay config n =
      min
        (from_millis (
          f.to_u64 (
            f.mul (f.of_u128 (config.retry_delay / 1000000))
              (f.powi config.retry_backoff_multiplier ((n + (u32_mod - 1)) % u32_mod)))))
        config.max_retry_delay

module _ {E X C P F : Type 0} (projector : Projector E X C P) (settings : Settings F) where
  -- `ProjectionPipeline::new`
  unfoldable pub new : P → ProjectionPipeline E C P
  new p = record {
    projector = p;
    phase =
        if settings.has_checkpoint_store
        then loading_checkpoint
        else poll_events (record {
          last_checkpoint = none;
          ctx = projector.default_context;
          consecutive_failures = 0;
        });
  }

  -- Where an event was applied or skipped: its position is saved, if there is a checkpoint store,
  -- and else `continue` goes on with the next event.
  unfoldable pub settle :
      ProjectionPhase E C
      → StreamPosition
      → ProjectionPipeline E C P
      → ProjectionStep × ProjectionPipeline E C P
      → ProjectionStep × ProjectionPipeline E C P
  settle awaiting position p continue =
      if settings.has_checkpoint_store
      then (
        yield_effect (save_checkpoint (projector.name p.projector) position),
        at_phase p awaiting,
      )
      else continue

  -- The end of a page.
  unfoldable pub end_page :
      Processing E C → ProjectionPipeline E C P → ProjectionStep × ProjectionPipeline E C P
  end_page s p = elim settings.poll_mode [
    | batch ↦ (finished (ok tt), p)
    | continuous ↦ (
      yield_effect (
          sleep (elim s.events [
            | [] ↦ settings.poll_config.empty_poll_backoff
            | _ ∷ _ ↦ settings.poll_config.poll_interval
          ])),
      at_phase p (awaiting_poll_sleep s.last_checkpoint s.ctx),
    )
  ]

module _ {E X C P F : Type 0} (projector : Projector E X C P) (f : Float F)
    (settings : Settings F) where
  -- The strategy `Retry`: another attempt after a delay, while the configuration allows it.
  unfoldable pub retry_event :
      Processing E C → ProjectionPipeline E C P → ProjectionStep × ProjectionPipeline E C P
  retry_event s p =
      if leb settings.event_retry_config.max_retry_attempts s.retry_count
      then (finished (err (failed "projector apply failed after max retries")), p)
      else (
        yield_effect (sleep (retry_delay f settings.event_retry_config (s.retry_count + 1))),
        at_phase p (awaiting_event_retry_sleep (record s { retry_count = s.retry_count + 1 })),
      )

  -- What follows the strategy for an event that failed. `ctx` is what the attempt left, and
  -- `continue` goes on with the events after this one.
  unfoldable pub respond :
      StreamPosition
      → Processing E C
      → ProjectionPipeline E C P
      → (Processing E C → ProjectionPipeline E C P → ProjectionStep × ProjectionPipeline E C P)
      → C
      → FailureStrategy × P
      → ProjectionStep × ProjectionPipeline E C P
  respond position s p continue ctx (fatal, projector') =
      (finished (err (failed "projector apply failed")), record p { projector = projector' })
  respond position s p continue ctx (skip, projector') =
      let p' = record p { projector = projector' } in
      settle projector settings (awaiting_skip_checkpoint_save (settled_at position s ctx)) position
        p' (continue (next_event (settled_at position s ctx)) p')
  respond position s p continue ctx (retry, projector') =
      retry_event (record s { ctx = ctx }) (record p { projector = projector' })

  -- What follows an attempt.
  unfoldable pub handle :
      StreamPosition
      → Processing E C
      → ProjectionPipeline E C P
      → (Processing E C → ProjectionPipeline E C P → ProjectionStep × ProjectionPipeline E C P)
      → Result (Unit {0}) X × P × C
      → ProjectionStep × ProjectionPipeline E C P
  handle position s p continue (ok _, projector', ctx) =
      let p' = record p { projector = projector' } in
      settle projector settings (awaiting_checkpoint_save (settled_at position s ctx)) position p'
        (continue (next_event (settled_at position s ctx)) p')
  handle position s p continue (err error, projector', ctx) = respond position s p continue ctx (
      projector.on_error projector'
        (record { error = error; position = position; retry_count = s.retry_count }))

  -- The arm of `ProcessingEvents`, on the events from the index on.
  unfoldable pub process :
      List (E × StreamPosition)
      → Processing E C
      → ProjectionPipeline E C P
      → ProjectionStep × ProjectionPipeline E C P
  process [] s p = end_page projector settings s p
  process ((event, position) ∷ rest) s p =
      handle position s p (process rest) (projector.apply p.projector event position s.ctx)

module _ {E X C P F : Type 0} (projector : Projector E X C P) (event_type_name : String)
    (f : Float F) (settings : Settings F) where
  unfoldable step_phase :
      ProjectionPhase E C → ProjectionPipeline E C P → ProjectionStep × ProjectionPipeline E C P
  step_phase loading_checkpoint p =
      (yield_effect (load_checkpoint (projector.name p.projector)), at_phase p awaiting_checkpoint)
  step_phase (poll_events poll) p = (
    yield_effect (read_events (poll_filter event_type_name) (poll_page poll.last_checkpoint)),
    at_phase p (awaiting_events poll),
  )
  step_phase (processing_events s) p =
      process projector f settings (drop s.event_index s.events) s p
  step_phase _ p = (panicked, p)

  -- `step`: the phase is taken out, and `Done` left in its place.
  unfoldable pub step : ProjectionPipeline E C P → ProjectionStep × ProjectionPipeline E C P
  unfolding step_phase
  step p = step_phase p.phase (at_phase p done)

  -- The arm of `AwaitingEvents`.
  unfoldable pub resume_poll :
      Polling C
      → Result (List (E × StreamPosition)) String
      → ProjectionPipeline E C P
      → ProjectionStep × ProjectionPipeline E C P
  resume_poll poll (ok events) p = step (
      at_phase p (
        processing_events (record {
          events = events;
          event_index = 0;
          retry_count = 0;
          last_checkpoint = poll.last_checkpoint;
          ctx = poll.ctx;
        })))
  resume_poll poll (err e) p =
      if leb settings.poll_config.max_consecutive_poll_failures poll.consecutive_failures
      then (finished (err (failed (String.◌++◌ "failed to read events after max retries: " e))), p)
      else (
        yield_effect (sleep settings.poll_config.poll_failure_backoff),
        at_phase p (
            awaiting_poll_failure_sleep
              (record poll { consecutive_failures = poll.consecutive_failures + 1 })),
      )

  -- The arm of `AwaitingCheckpoint`.
  unfoldable pub resume_checkpoint :
      Result (Option StreamPosition) String
      → ProjectionPipeline E C P
      → ProjectionStep × ProjectionPipeline E C P
  resume_checkpoint (ok checkpoint) p = step (
      at_phase p (
        poll_events (record {
          last_checkpoint = checkpoint;
          ctx = projector.default_context;
          consecutive_failures = 0;
        })))
  resume_checkpoint (err e) p = (
    finished (
        err (
          failed (
            String.◌++◌ "failed to load checkpoint for projector '"
              (String.◌++◌ (projector.name p.projector) (String.◌++◌ "': " e))))),
    p,
  )

  -- A result that the phase does not expect panics in the first two arms; the arms after them do
  -- not look at it.
  unfoldable resume_phase :
      ProjectionPhase E C
      → ProjectionEffectResult E
      → ProjectionPipeline E C P
      → ProjectionStep × ProjectionPipeline E C P
  resume_phase awaiting_checkpoint (checkpoint_loaded r) p = resume_checkpoint r p
  resume_phase (awaiting_events poll) (events_read r) p = resume_poll poll r p
  resume_phase (awaiting_checkpoint_save s) _ p =
      step (at_phase p (processing_events (next_event s)))
  resume_phase (awaiting_skip_checkpoint_save s) _ p =
      step (at_phase p (processing_events (next_event s)))
  resume_phase (awaiting_event_retry_sleep s) _ p = step (at_phase p (processing_events s))
  resume_phase (awaiting_poll_failure_sleep poll) _ p = step (at_phase p (poll_events poll))
  resume_phase (awaiting_poll_sleep last_checkpoint ctx) _ p = step (
      at_phase p (
        poll_events
          (record { last_checkpoint = last_checkpoint; ctx = ctx; consecutive_failures = 0 })))
  resume_phase _ _ p = (panicked, p)

  unfoldable pub resume :
      ProjectionEffectResult E
      → ProjectionPipeline E C P
      → ProjectionStep × ProjectionPipeline E C P
  unfolding resume_phase
  resume result p = resume_phase p.phase result (at_phase p done)
