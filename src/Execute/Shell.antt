-- ===== src/Execute/Shell.antt =====
-- `execute` of eventcore/src/lib.rs: the loop that carries out the effects of the pipeline.
use eventcore.Prelude.{ℕ, zero, suc, List, [], ◌∷◌, Result, ok, err}
use eventcore.Types.Error.{StreamId, EventStoreError, CommandError}
use eventcore.Types.Event.{Event}
use eventcore.Execute.Interface.{CommandLogic, EventStore}
use eventcore.Execute.Retry.{Float, RetryPolicy}
use eventcore.Execute.Pipeline.{
  read_stream, append_events, sleep, stream_event, stream_ended, stream_read_error, events_appended,
  slept, success, error, PipelineStep, yield_effect, wait_for_result, finished, panicked,
  ExecutePipeline, new, step, resume,
}

-- How a run ends: `execute` returns, it panics, or the fuel given to the model is used up.
pub data Run : Type 0 where
  returned : Result ℕ CommandError → Run
  crashed : Run
  out_of_fuel : Run

module _ {Any E S Value F : Type 0} (ev : Event Any E) (command : CommandLogic E S Value)
    (f : Float F) (policy : RetryPolicy) (random : ℕ → F) where
  -- The loop of `pump_stream_reads` over the items of an open stream.
  unfoldable pub pump_items :
      List (Result E EventStoreError) → ExecutePipeline S → PipelineStep Any × ExecutePipeline S
  pump_items [] p = resume ev command f policy random stream_ended p
  pump_items (ok event ∷ items) p =
      pump_items items (resume ev command f policy random (stream_event event) p).1
  pump_items (err e ∷ items) p = resume ev command f policy random (stream_read_error e) p

module _ {Any E S Value F W : Type 0} (ev : Event Any E) (command : CommandLogic E S Value)
    (f : Float F) (policy : RetryPolicy) (random : ℕ → F) (store : EventStore Any E Value W) where
  unfoldable pub pump_stream_reads :
      StreamId → ExecutePipeline S → W → (PipelineStep Any × ExecutePipeline S) × W
  pump_stream_reads stream_id p w =
      let (opened, w') = store.read_stream stream_id w in
      elim opened [
        | ok items ↦ (pump_items ev command f policy random items p, w')
        | err e ↦ (resume ev command f policy random (stream_read_error e) p, w')
      ]

  -- The loop of `execute`, on fuel: one unit for each effect.
  unfoldable pub drive : ℕ → PipelineStep Any → ExecutePipeline S → W → Run × W
  drive zero s p w = (out_of_fuel, w)
  drive (suc fuel) (finished (success attempts)) p w = (returned (ok attempts), w)
  drive (suc fuel) (finished (error e)) p w = (returned (err e), w)
  drive (suc fuel) wait_for_result p w = (crashed, w)
  drive (suc fuel) panicked p w = (crashed, w)
  drive (suc fuel) (yield_effect (read_stream stream_id)) p w =
      let ((s, p'), w') = pump_stream_reads stream_id p w in drive fuel s p' w'
  drive (suc fuel) (yield_effect (append_events writes)) p w =
      let (result, w') = store.append_events writes w in
      let (s, p') = resume ev command f policy random (events_appended result) p in
      drive fuel s p' w'
  drive (suc fuel) (yield_effect (sleep duration)) p w =
      let (s, p') = resume ev command f policy random slept p in
      drive fuel s p' (store.sleep duration w)

  -- `execute`, for a command that has no snapshot id.
  unfoldable pub execute : ℕ → W → Run × W
  execute fuel w = let (s, p) = step ev command new in drive fuel s p w
