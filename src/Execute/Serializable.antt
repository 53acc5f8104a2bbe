-- ===== src/Execute/Serializable.antt =====
-- Every execution that succeeds took effect in one instant, whatever else was written meanwhile.
use eventcore.Prelude.{ℕ, ◌≡◌, List, none, some, Result, ok}
use eventcore.Prelude.HashMap
use eventcore.Prelude.HashMap.{HashMap, lookup}
use eventcore.Prelude.HashSet
use eventcore.Types.Error.{StreamId, EventStoreError, CommandError}
use eventcore.Types.Event.{Event}
use eventcore.Types.Writes.{StreamWrites, build_stream_writes_from_events}
use eventcore.Execute.Interface.{CommandLogic, EventStore, Grows}
use eventcore.Execute.Retry.{Float, RetryPolicy}
use eventcore.Execute.Pipeline.{
  read_stream, append_events, sleep, success, error, PipelineStep, yield_effect, finished, panicked,
  Reading, awaiting_stream_read, awaiting_append, awaiting_retry_sleep, ExecutePipeline, at_phase,
  next_unvisited,
}
use eventcore.Execute.Atomic.{Serialized, IsCountable}
use eventcore.Execute.ReadPhase.{ReadSoFar}

module _ {Any E S Value F W : Type 0} (ev : Event Any E) (command : CommandLogic E S Value)
    (f : Float F) (policy : RetryPolicy) (random : ℕ → F) (store : EventStore Any E Value W) where
  module _ (history : W → StreamId → List Any) (decode : StreamId → Any → Result E EventStoreError)
      (w₀ : W) where
    -- Where the loop may stand in the world `w`, with the step `s` before it and the pipeline `p`.
    data Ready (w : W) (s : PipelineStep Any) (p : ExecutePipeline S) : Type 0 where
      reading :
          (p' : ExecutePipeline S) (log : HashMap (List E)) (r : Reading S) (k : StreamId)
          (rest : List StreamId)
          → s ≡ yield_effect (read_stream k)
          → p
            ≡ at_phase p' (
                awaiting_stream_read k
                  (record r { queue = rest; visited = HashSet.insert k r.visited })
                  0)
          → ReadSoFar command history decode w₀ w log r
          → next_unvisited r.visited r.queue ≡ some (k, rest)
          → Ready w s p
      appending :
          (p' : ExecutePipeline S) (ids : List StreamId) (log : HashMap (List E)) (r : Reading S)
          (events : List E) (writes : StreamWrites Any)
          → s ≡ yield_effect (append_events writes)
          → p ≡ at_phase p' (awaiting_append ids)
          → ReadSoFar command history decode w₀ w log r
          → next_unvisited r.visited r.queue ≡ none
          → command.handle r.state ≡ ok events
          → build_stream_writes_from_events ev events r.expected_versions ≡ ok writes
          → Ready w s p
      sleeping :
          (ms : ℕ)
          → s ≡ yield_effect (sleep ms)
          → p.phase ≡ awaiting_retry_sleep
          → Grows history w₀ w
          → Ready w s p
      failed : (e : CommandError) → s ≡ finished (error e) → Ready w s p
      broken : s ≡ panicked → Ready w s p
      succeeded :
          (n : ℕ)
          → s ≡ finished (success n)
          → (IsCountable history w → Serialized ev command history decode w₀ w)
          → Ready w s p
