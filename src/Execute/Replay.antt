-- ===== src/Execute/Replay.antt =====
-- The replay of streams from snapshots and checkpoints: eventcore/src/lib.rs.
use eventcore.Prelude.{
  ℕ, zero, suc, List, [], ◌∷◌, ◌++◌, Bool, true, false, ◌&&◌, not, Option, none, some, Result, ok,
  err, eqb, length, last?, ◌==◌, if◌then◌else◌,
}
use eventcore.Prelude.HashMap
use eventcore.Prelude.HashMap.{HashMap, lookup, contains_key, all}
use eventcore.Prelude.HashSet
use eventcore.Prelude.HashSet.{HashSet, contains}
use eventcore.Types.Error.{
  StreamId, StreamVersion, increment, EventStoreError, CommandError, event_store_error,
}
use eventcore.Types.Snapshot.{CommandStateReplayCheckpoint, CommandStateSnapshot}
use eventcore.Execute.Interface.{CommandLogic, EventStore}
use eventcore.Execute.Pipeline.{discover}
use eventcore.Execute.Flow.{Flow, fails, Async, pure, lift, crash, exhaust, ◌>>=◌}

pub record ReplayProgress (S Value : Type 0) : Type 0 where
  pub state : S
  pub queue : List StreamId
  pub visited : HashSet
  pub scheduled : HashSet
  pub expected_versions : HashMap StreamVersion
  pub checkpoints : List (CommandStateReplayCheckpoint Value)

module _ {Any E S Value W : Type 0} (command : CommandLogic E S Value)
    (store : EventStore Any E Value W) where
  -- The loop of `apply_command_stream` over the items of an open stream.
  unfoldable pub apply_items : List (Result E EventStoreError) → S → ℕ → Result (S × ℕ) CommandError
  apply_items [] state count = ok (state, count)
  apply_items (ok event ∷ items) state count =
      apply_items items (command.apply state event) (increment count)
  apply_items (err e ∷ items) state count = err (event_store_error e)

  unfoldable pub open_stream :
      StreamId
      → Option StreamVersion
      → W
      → Result (List (Result E EventStoreError)) EventStoreError × W
  open_stream stream_id none w = store.read_stream stream_id w
  open_stream stream_id (some version) w = store.read_stream_after stream_id version w

  unfoldable pub apply_opened :
      S → Result (List (Result E EventStoreError)) EventStoreError × W → Flow (S × ℕ) × W
  apply_opened state (ok items, w) = lift (apply_items items state 0) w
  apply_opened state (err e, w) = (fails (event_store_error e), w)

  unfoldable pub apply_command_stream : S → StreamId → Option StreamVersion → Async W (S × ℕ)
  apply_command_stream state stream_id after w = apply_opened state (open_stream stream_id after w)

  -- A stream that was read in full, after its events were folded.
  unfoldable pub record_stream :
      StreamId → S × ℕ → Value → ReplayProgress S Value → ReplayProgress S Value
  record_stream stream_id (state, count) saved replay =
      let expected_versions = HashMap.insert stream_id count replay.expected_versions in
      let (queue, scheduled) = discover command state (replay.queue, replay.scheduled) in
      record replay {
        state = state;
        expected_versions = expected_versions;
        checkpoints =
            replay.checkpoints
            ++ record { stream_id = stream_id; state = saved; stream_versions = expected_versions }
              ∷ [];
        queue = queue;
        scheduled = scheduled;
      }

  -- The loop of `replay_remaining_streams`, on fuel: one unit for each stream that is popped.
  unfoldable pub replay_remaining_streams :
      ℕ → ReplayProgress S Value → Async W (ReplayProgress S Value)
  replay_remaining_streams zero replay = exhaust
  replay_remaining_streams (suc fuel) replay = elim replay.queue [
    | [] ↦ pure replay
    | stream_id ∷ queue ↦ elim (contains stream_id replay.visited) [
      | true ↦ replay_remaining_streams fuel (record replay { queue = queue })
      | false ↦ apply_command_stream replay.state stream_id none >>= λ read.
          lift (command.serialize_command_state_snapshot read.0) >>= λ saved.
          replay_remaining_streams fuel (
            record_stream stream_id read saved
              (record replay { queue = queue; visited = HashSet.insert stream_id replay.visited }))
    ]
  ]

  -- The loop of `discovery_before_checkpoint`; a queue that is empty too early panics.
  unfoldable pub restore :
      List (CommandStateReplayCheckpoint Value)
      → ReplayProgress S Value
      → Async W (ReplayProgress S Value)
  restore [] replay = pure replay
  restore (checkpoint ∷ checkpoints) replay = elim replay.queue [
    | [] ↦ crash
    | stream_id ∷ rest ↦
        lift (command.deserialize_command_state_snapshot checkpoint.state) >>= λ state.
        let (queue, scheduled) = discover command state (rest, replay.scheduled) in
        restore checkpoints (record replay {
          state = state;
          queue = queue;
          visited = HashSet.insert stream_id replay.visited;
          scheduled = scheduled;
        })
  ]

  unfoldable pub discovery_before_checkpoint :
      List StreamId → List (CommandStateReplayCheckpoint Value) → Async W (ReplayProgress S Value)
  discovery_before_checkpoint declared_stream_ids checkpoints = restore checkpoints (record {
    state = command.initial;
    queue = declared_stream_ids;
    visited = [];
    scheduled = declared_stream_ids;
    expected_versions = [];
    checkpoints = [];
  })

  -- The test at the end of `snapshot_replay_order_is_valid`.
  unfoldable pub ends_at : CommandStateSnapshot Value → Bool
  ends_at snapshot =
      all
        (λ stream_id version. elim (last? snapshot.replay_checkpoints) [
          | none ↦ false
          | some last ↦ elim (lookup stream_id last.stream_versions) [
            | none ↦ false
            | some reached ↦ eqb reached version
          ]
        ])
        snapshot.stream_versions

  -- Its loop over the checkpoints.
  unfoldable pub order_is_valid :
      CommandStateSnapshot Value
      → List (CommandStateReplayCheckpoint Value)
      → ReplayProgress S Value
      → Async W Bool
  order_is_valid snapshot [] replay =
      pure (elim replay.queue [ [] ↦ ends_at snapshot | _ ∷ _ ↦ false ])
  order_is_valid snapshot (checkpoint ∷ checkpoints) replay = elim replay.queue [
    | [] ↦ pure false
    | stream_id ∷ rest ↦
        elim (stream_id == checkpoint.stream_id
          && not (contains stream_id replay.visited)
          && contains_key stream_id checkpoint.stream_versions) [
            | false ↦ pure false
            | true ↦ lift (command.deserialize_command_state_snapshot checkpoint.state) >>= λ state.
                let (queue, scheduled) = discover command state (rest, replay.scheduled) in
                order_is_valid snapshot checkpoints (record replay {
                  queue = queue;
                  visited = HashSet.insert stream_id replay.visited;
                  scheduled = scheduled;
                })
          ]
  ]

  unfoldable pub snapshot_replay_order_is_valid :
      List StreamId → CommandStateSnapshot Value → Async W Bool
  snapshot_replay_order_is_valid stream_ids snapshot =
      if eqb (length snapshot.stream_versions) (length snapshot.replay_checkpoints)
      then (discovery_before_checkpoint stream_ids []
          >>= order_is_valid snapshot snapshot.replay_checkpoints)
      else pure false
