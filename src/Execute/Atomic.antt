-- ===== src/Execute/Atomic.antt =====
-- The specification of an execution: a command that reads every stream and writes its events in
-- one instant. `Serialized` says that a run is that, at some moment between its start and its end.
use eventcore.Prelude.{◌%◌, ◌<◌, ◌≡◌, List, [], ◌∷◌, ◌++◌, map, length, none, some, Result, ok}
use eventcore.Prelude.HashMap.{lookup}
use eventcore.Prelude.HashSet
use eventcore.Types.Error.{StreamId, StreamVersion, usize_mod, EventStoreError}
use eventcore.Types.Event.{Event}
use eventcore.Types.Writes.{StreamWrites, build_stream_writes_from_events}
use eventcore.Memory.Append.{entries_for}
use eventcore.Execute.Interface.{CommandLogic, Grows}
use eventcore.Execute.Pipeline.{Reading, initial_reading, next_unvisited, end_stream}

module _ {E S Value : Type 0} (command : CommandLogic E S Value) where
  -- The state after a list of events.
  abbrev pub fold_events : S → List E → S
  fold_events state [] = state
  fold_events state (e ∷ es) = fold_events (command.apply state e) es

  -- Reading the stream `k`, which holds the events `es`, and leaves the queue `rest`.
  abbrev pub read_one : Reading S → StreamId → List StreamId → List E → Reading S
  read_one r k rest es =
      end_stream command k
        (record r {
          queue = rest;
          visited = HashSet.insert k r.visited;
          state = fold_events r.state es;
        })
        (length es % usize_mod)

  -- Reading streams one after another, where `h k` is what the stream `k` holds throughout.
  pub data Replays (h : StreamId → List E) (r₀ : Reading S) : Reading S → Type 0 where
    start : {r : Reading S} → r ≡ r₀ → Replays h r₀ r
    then_read :
        {r : Reading S} (r₁ : Reading S) (k : StreamId) (rest : List StreamId)
        → Replays h r₀ r₁
        → next_unvisited r₁.visited r₁.queue ≡ some (k, rest)
        → r ≡ read_one r₁ k rest (h k)
        → Replays h r₀ r

module _ {Any E S Value W : Type 0} (ev : Event Any E) (command : CommandLogic E S Value)
    (history : W → StreamId → List Any) (decode : StreamId → Any → Result E EventStoreError) where
  -- Between `w₀` and `w` the command took effect in one instant, the world `instant`. There every
  -- stream that it read, discovered ones included, held exactly the events that its state was
  -- folded from; it decided on that state; and its events, and nothing else, were appended.
  pub record Serialized (w₀ w : W) : Type 0 where
    pub instant : W
    pub events_at : StreamId → List E
    pub reading : Reading S
    pub decided : List E
    pub writes : StreamWrites Any
    pub after_start : Grows history w₀ instant
    pub replayed : Replays command events_at (initial_reading command) reading
    pub all_read : next_unvisited reading.visited reading.queue ≡ none
    pub current :
        (k : StreamId) (v : StreamVersion)
        → lookup k reading.expected_versions ≡ some v
        → map (decode k) (history instant k) ≡ map ok (events_at k)
    pub handled : command.handle reading.state ≡ ok decided
    pub built : build_stream_writes_from_events ev decided reading.expected_versions ≡ ok writes
    pub appended : (k : StreamId) → history w k ≡ history instant k ++ entries_for k writes.entries

module _ {Any W : Type 0} (history : W → StreamId → List Any) where
  -- No stream is longer than its version can count.
  abbrev pub IsCountable : W → Type 0
  IsCountable w = (k : StreamId) → length (history w k) < usize_mod
