-- ===== src/Execute/Pipeline.antt =====
-- The state machine of eventcore/src/execute_pipeline.rs, with the effects of effects.rs.
use eventcore.Prelude.{
  ℕ, ◌+◌, ◌%◌, List, [], ◌∷◌, ◌++◌, Option, none, some, Result, ok, err, ltb, eqb, if◌then◌else◌,
}
use eventcore.Prelude.HashMap
use eventcore.Prelude.HashMap.{HashMap}
use eventcore.Prelude.HashSet
use eventcore.Prelude.HashSet.{HashSet, contains}
use eventcore.Types.Error.{
  StreamId, StreamVersion, increment, u32_mod, EventStoreError, version_conflict, CommandError,
  event_store_error, concurrency_error,
}
use eventcore.Types.Event.{Event}
use eventcore.Types.Writes.{StreamWrites, build_stream_writes_from_events}
use eventcore.Execute.Interface.{CommandLogic}
use eventcore.Execute.Retry.{Float, RetryPolicy, RetryContext, compute_retry_delay_ms}

pub data StoreEffect (Any : Type 0) : Type 0 where
  read_stream : StreamId → StoreEffect Any
  append_events : StreamWrites Any → StoreEffect Any
  sleep : ℕ → StoreEffect Any

pub data StoreEffectResult (E : Type 0) : Type 0 where
  stream_event : E → StoreEffectResult E
  stream_ended : StoreEffectResult E
  stream_read_error : EventStoreError → StoreEffectResult E
  events_appended : Result (Unit {0}) EventStoreError → StoreEffectResult E
  slept : StoreEffectResult E

-- `success` carries the `attempts` of the `ExecutionResponse`.
pub data PipelineOutcome : Type 0 where
  success : ℕ → PipelineOutcome
  error : CommandError → PipelineOutcome

-- `panicked` stands for a panic inside the call.
pub data PipelineStep (Any : Type 0) : Type 0 where
  yield_effect : StoreEffect Any → PipelineStep Any
  wait_for_result : PipelineStep Any
  finished : PipelineOutcome → PipelineStep Any
  panicked : PipelineStep Any

-- The fields that the phases `ReadingStreams` and `AwaitingStreamRead` share.
pub record Reading (S : Type 0) : Type 0 where
  pub queue : List StreamId
  pub visited : HashSet
  pub scheduled : HashSet
  pub stream_ids : List StreamId
  pub expected_versions : HashMap StreamVersion
  pub state : S

pub data Phase (S : Type 0) : Type 0 where
  init : Phase S
  reading_streams : Reading S → Phase S
  awaiting_stream_read : StreamId → Reading S → ℕ → Phase S
  handling : List StreamId → HashMap StreamVersion → S → Phase S
  awaiting_append : List StreamId → Phase S
  awaiting_retry_sleep : Phase S
  done : Phase S

-- The command and the policy never change, and are parameters below. `hook_calls` is what the
-- metrics hook of the policy has been told.
pub record ExecutePipeline (S : Type 0) : Type 0 where
  pub phase : Phase S
  pub attempt : ℕ
  pub hook_calls : List RetryContext

module _ {S : Type 0} where
  -- `ExecutePipeline::new`
  abbrev pub new : ExecutePipeline S
  new = record { phase = init; attempt = 0; hook_calls = [] }

  abbrev pub at_phase : ExecutePipeline S → Phase S → ExecutePipeline S
  at_phase p phase = record p { phase = phase }

-- The loop that schedules discovered streams: each that is new goes to the end of the queue.
unfoldable pub enqueue : List StreamId → List StreamId × HashSet → List StreamId × HashSet
enqueue [] (queue, scheduled) = (queue, scheduled)
enqueue (s ∷ ss) (queue, scheduled) = enqueue ss (
    if contains s scheduled
    then (queue, scheduled)
    else (queue ++ s ∷ [], HashSet.insert s scheduled))

-- The loop that pops the queue down to a stream that was not visited, with the queue that is left.
unfoldable pub next_unvisited : HashSet → List StreamId → Option (StreamId × List StreamId)
next_unvisited visited [] = none
next_unvisited visited (s ∷ queue) =
    if contains s visited then next_unvisited visited queue else some (s, queue)

module _ {E S Value : Type 0} (command : CommandLogic E S Value) where
  -- What the arm of `Phase::Init` starts from.
  unfoldable pub initial_reading : Reading S
  initial_reading =
      let (queue, scheduled) = enqueue command.stream_declarations.streams ([], []) in
      record {
        queue = queue;
        visited = [];
        scheduled = scheduled;
        stream_ids = [];
        expected_versions = [];
        state = command.initial;
      }

  -- The discovery of related streams.
  unfoldable pub discover : S → List StreamId × HashSet → List StreamId × HashSet
  discover state (queue, scheduled) = elim command.stream_resolver [
    | none ↦ (queue, scheduled)
    | some resolver ↦ enqueue (resolver state) (queue, scheduled)
  ]

  -- The end of a stream of which `event_count` events were folded.
  unfoldable pub end_stream : StreamId → Reading S → ℕ → Reading S
  end_stream current r event_count =
      let (queue, scheduled) = discover r.state (r.queue, r.scheduled) in
      record r {
        queue = queue;
        scheduled = scheduled;
        stream_ids = r.stream_ids ++ current ∷ [];
        expected_versions = HashMap.insert current event_count r.expected_versions;
      }

module _ {Any E S Value : Type 0} (ev : Event Any E) (command : CommandLogic E S Value) where
  -- The arm of `Phase::Handling`.
  unfoldable pub step_handling :
      List StreamId
      → HashMap StreamVersion
      → S
      → ExecutePipeline S
      → PipelineStep Any × ExecutePipeline S
  step_handling stream_ids expected_versions state p = elim (command.handle state) [
    | err e ↦ (finished (error e), at_phase p done)
    | ok events ↦ elim (build_stream_writes_from_events ev events expected_versions) [
      | err e ↦ (finished (error e), at_phase p done)
      | ok writes ↦ (yield_effect (append_events writes), at_phase p (awaiting_append stream_ids))
    ]
  ]

  -- The arm of `Phase::ReadingStreams`.
  unfoldable pub step_reading : Reading S → ExecutePipeline S → PipelineStep Any × ExecutePipeline S
  step_reading r p = elim (next_unvisited r.visited r.queue) [
    | none ↦ step_handling r.stream_ids r.expected_versions r.state p
    | some found ↦ (
      yield_effect (read_stream found.0),
      at_phase p (
          awaiting_stream_read found.0
            (record r { queue = found.1; visited = HashSet.insert found.0 r.visited }) 0),
    )
  ]

  step_phase : Phase S → ExecutePipeline S → PipelineStep Any × ExecutePipeline S
  step_phase init p = step_reading (initial_reading command) p
  step_phase (reading_streams r) p = step_reading r p
  step_phase (handling stream_ids expected_versions state) p =
      step_handling stream_ids expected_versions state p
  step_phase (awaiting_stream_read _ _ _) p = (panicked, p)
  step_phase (awaiting_append _) p = (panicked, p)
  step_phase awaiting_retry_sleep p = (panicked, p)
  step_phase done p = (panicked, p)

  -- `step`: the phase is taken out, and `Done` left in its place.
  unfoldable pub step : ExecutePipeline S → PipelineStep Any × ExecutePipeline S
  unfolding step_phase
  step p = step_phase p.phase (at_phase p done)

  -- The arms of `resume` in the phase `AwaitingStreamRead`.
  unfoldable pub resume_read :
      StreamId
      → Reading S
      → ℕ
      → StoreEffectResult E
      → ExecutePipeline S
      → PipelineStep Any × ExecutePipeline S
  resume_read current r event_count (stream_event event) p = (
    wait_for_result,
    at_phase p (
        awaiting_stream_read current (record r { state = command.apply r.state event })
          (increment event_count)),
  )
  resume_read current r event_count stream_ended p =
      step_reading (end_stream command current r event_count) p
  resume_read current r event_count (stream_read_error e) p =
      (finished (error (event_store_error e)), p)
  resume_read current r event_count (events_appended _) p = (panicked, p)
  resume_read current r event_count slept p = (panicked, p)

module _ {Any S F : Type 0} (f : Float F) (policy : RetryPolicy) (random : ℕ → F) where
  -- A version conflict: another attempt after a delay, while the policy allows it. `random i` is
  -- the random value that the `i`-th attempt draws.
  unfoldable pub retry : List StreamId → ExecutePipeline S → PipelineStep Any × ExecutePipeline S
  retry stream_ids p =
      let delay_ms =
        compute_retry_delay_ms f policy.backoff_strategy p.attempt (random p.attempt) in
      let ctx : RetryContext = record {
        streams = stream_ids;
        attempt = p.attempt + 1;
        delay_ms = delay_ms;
      } in
      if ltb p.attempt policy.max_retries
      then (
        yield_effect (sleep delay_ms),
        record p {
          phase = awaiting_retry_sleep;
          attempt = p.attempt + 1;
          hook_calls = if policy.metrics_hook then p.hook_calls ++ ctx ∷ [] else p.hook_calls;
        },
      )
      else (finished (error (concurrency_error policy.max_retries)), p)

  -- The arms for the result of an append. The attempts are counted in 32 bits, and a count that
  -- wraps to 0 is refused by `NonZeroU32`, with a panic.
  unfoldable pub resume_append :
      List StreamId
      → Result (Unit {0}) EventStoreError
      → ExecutePipeline S
      → PipelineStep Any × ExecutePipeline S
  resume_append stream_ids (ok _) p =
      let attempts = (p.attempt + 1) % u32_mod in
      if eqb attempts 0 then (panicked, p) else (finished (success attempts), p)
  resume_append stream_ids (err (version_conflict _ _ _)) p = retry stream_ids p
  resume_append stream_ids (err other) p = (finished (error (event_store_error other)), p)

module _ {Any E S Value F : Type 0} (ev : Event Any E) (command : CommandLogic E S Value)
    (f : Float F) (policy : RetryPolicy) (random : ℕ → F) where
  resume_phase :
      Phase S → StoreEffectResult E → ExecutePipeline S → PipelineStep Any × ExecutePipeline S
  resume_phase (awaiting_stream_read current r event_count) result p =
      resume_read ev command current r event_count result p
  resume_phase (awaiting_append stream_ids) (events_appended r) p =
      resume_append f policy random stream_ids r p
  resume_phase awaiting_retry_sleep slept p = step_reading ev command (initial_reading command) p
  resume_phase _ _ p = (panicked, p)

  unfoldable pub resume :
      StoreEffectResult E → ExecutePipeline S → PipelineStep Any × ExecutePipeline S
  unfolding resume_phase
  resume result p = resume_phase p.phase result (at_phase p done)
