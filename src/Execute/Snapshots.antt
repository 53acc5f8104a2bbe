-- ===== src/Execute/Snapshots.antt =====
-- Executing a command from a stored snapshot: `reconstruct_command_snapshot` and
-- `execute_with_snapshot` of eventcore/src/lib.rs.
use eventcore.Prelude.{
  ℕ, zero, suc, ◌+◌, ◌%◌, String, List, [], ◌∷◌, ◌++◌, true, false, Option, none, some, Result, ok,
  err, eqb, leb, ltb, if◌then◌else◌,
}
use eventcore.Prelude.HashMap
use eventcore.Prelude.HashMap.{HashMap, lookup}
use eventcore.Prelude.HashSet
use eventcore.Types.Error.{
  StreamId, StreamVersion, usize_mod, u32_mod, EventStoreError, version_conflict, event_store_error,
  concurrency_error,
}
use eventcore.Types.Event.{Event}
use eventcore.Types.Writes.{build_stream_writes_from_events}
use eventcore.Types.Snapshot
use eventcore.Types.Snapshot.{
  CommandStateReplayCheckpoint, CommandStateSnapshot, with_replay_checkpoints,
}
use eventcore.Execute.Interface.{CommandLogic, EventStore}
use eventcore.Execute.Retry.{Float, RetryPolicy, RetryContext, compute_retry_delay_ms}
use eventcore.Execute.Pipeline.{discover}
use eventcore.Execute.Flow.{Flow, yields, fails, crashed, Async, pure, lift, crash, exhaust, ◌>>=◌}
use eventcore.Execute.Replay.{
  ReplayProgress, apply_command_stream, replay_remaining_streams, discovery_before_checkpoint,
  snapshot_replay_order_is_valid,
}

-- `COMMAND_STATE_SNAPSHOT_REFRESH_THRESHOLD`
abbrev pub refresh_threshold : ℕ
refresh_threshold = 100

-- The sum of the versions, in 64 bits.
unfoldable pub replayed_events : HashMap StreamVersion → ℕ
replayed_events [] = 0
replayed_events ((_, version) ∷ m) = (version + replayed_events m) % usize_mod

-- What a reconstruction returns: the state, the versions that it was read at, and the snapshot to
-- save.
pub record Reconstruction (S Value : Type 0) : Type 0 where
  pub state : S
  pub expected_versions : HashMap StreamVersion
  pub snapshot : Option (CommandStateSnapshot Value)

module _ {Any E S Value W : Type 0} (command : CommandLogic E S Value)
    (store : EventStore Any E Value W) (fuel : ℕ) (stream_ids : List StreamId) where
  -- A snapshot of what a replay has reached.
  unfoldable pub snapshot_of : ReplayProgress S Value → Async W (CommandStateSnapshot Value)
  snapshot_of replay = lift (command.serialize_command_state_snapshot replay.state) >>= λ saved.
      pure
        (with_replay_checkpoints (Snapshot.new saved replay.expected_versions) replay.checkpoints)

  -- The end of a full replay: a snapshot is saved from the threshold on.
  unfoldable pub end_replay : ReplayProgress S Value → Async W (Reconstruction S Value)
  end_replay replay =
      if leb refresh_threshold (replayed_events replay.expected_versions)
      then (snapshot_of replay >>= λ snapshot. pure (record {
        state = replay.state;
        expected_versions = replay.expected_versions;
        snapshot = some snapshot;
      }))
      else pure (record {
        state = replay.state;
        expected_versions = replay.expected_versions;
        snapshot = none;
      })

  unfoldable pub full_replay : Async W (Reconstruction S Value)
  full_replay =
      discovery_before_checkpoint command store stream_ids []
      >>= replay_remaining_streams command store fuel
      >>= end_replay

  -- From a checkpoint whose stream has grown by `tail_count` events, which `state` has folded. The
  -- checkpoints before it, `before`, stay.
  unfoldable pub replay_from :
      List (CommandStateReplayCheckpoint Value)
      → CommandStateReplayCheckpoint Value
      → StreamVersion
      → S
      → ℕ
      → Async W (Reconstruction S Value)
  replay_from before checkpoint base_version state tail_count =
      let expected_versions =
        HashMap.insert checkpoint.stream_id ((base_version + tail_count) % usize_mod)
          checkpoint.stream_versions in
      lift (command.serialize_command_state_snapshot state) >>= λ saved.
      discovery_before_checkpoint command store stream_ids before >>= λ progress.
      elim progress.queue [
        | [] ↦ crash
        | _ ∷ rest ↦
            let (queue, scheduled) = discover command state (rest, progress.scheduled) in
            replay_remaining_streams command store fuel (record {
              state = state;
              queue = queue;
              visited = HashSet.insert checkpoint.stream_id progress.visited;
              scheduled = scheduled;
              expected_versions = expected_versions;
              checkpoints =
                  before
                  ++ record {
                    stream_id = checkpoint.stream_id;
                    state = saved;
                    stream_versions = expected_versions;
                  }
                    ∷ [];
            })
            >>= λ replay. snapshot_of replay >>= λ snapshot. pure (record {
              state = replay.state;
              expected_versions = replay.expected_versions;
              snapshot = some snapshot;
            })
      ]

  -- The loop over the checkpoints of a valid snapshot: `before` are those whose streams have not
  -- grown.
  unfoldable pub resume_checkpoints :
      CommandStateSnapshot Value
      → List (CommandStateReplayCheckpoint Value)
      → List (CommandStateReplayCheckpoint Value)
      → Async W (Reconstruction S Value)
  resume_checkpoints snapshot before [] =
      lift (command.deserialize_command_state_snapshot snapshot.state) >>= λ state.
      pure (record { state = state; expected_versions = snapshot.stream_versions; snapshot = none })
  resume_checkpoints snapshot before (checkpoint ∷ checkpoints) =
      elim (lookup checkpoint.stream_id checkpoint.stream_versions) [
        | none ↦ crash
        | some base_version ↦
            lift (command.deserialize_command_state_snapshot checkpoint.state) >>= λ state.
            apply_command_stream command store state checkpoint.stream_id (some base_version)
            >>= λ read. elim (eqb read.1 0) [
              | true ↦ resume_checkpoints snapshot (before ++ checkpoint ∷ []) checkpoints
              | false ↦ replay_from before checkpoint base_version read.0 read.1
            ]
      ]

  unfoldable pub reconstruct_command_snapshot :
      Option (CommandStateSnapshot Value) → Async W (Reconstruction S Value)
  reconstruct_command_snapshot none = full_replay
  reconstruct_command_snapshot (some snapshot) =
      snapshot_replay_order_is_valid command store stream_ids snapshot >>= λ valid. elim valid [
        | true ↦ resume_checkpoints snapshot [] snapshot.replay_checkpoints
        | false ↦ full_replay
      ]

module _ {W A : Type 0} where
  -- A call of the store, whose error becomes a `CommandError`.
  abbrev pub settle_call : Result A EventStoreError × W → Flow A × W
  settle_call (ok a, w) = (yields a, w)
  settle_call (err e, w) = (fails (event_store_error e), w)

module _ {Any E S Value F W : Type 0} (ev : Event Any E) (command : CommandLogic E S Value)
    (f : Float F) (policy : RetryPolicy) (random : ℕ → F) (store : EventStore Any E Value W)
    (on_retry_attempt : RetryContext → W → W) (fuel : ℕ) (snapshot_id : String)
    (stream_ids : List StreamId) where
  -- The hook of the policy, which is told of the retry, and the sleep.
  unfoldable pub wait_for_retry : ℕ → Async W (Unit {0})
  wait_for_retry attempt w =
      let delay_ms = compute_retry_delay_ms f policy.backoff_strategy attempt (random attempt) in
      let ctx : RetryContext = record {
        streams = stream_ids;
        attempt = attempt + 1;
        delay_ms = delay_ms;
      } in
      (yields tt, store.sleep delay_ms (if policy.metrics_hook then on_retry_attempt ctx w else w))

  -- What follows the append: success with the number of attempts, which panics if it wraps to 0 in
  -- 32 bits; another attempt; or an error.
  unfoldable pub after_append :
      (ℕ → Async W ℕ) → ℕ → Result (Unit {0}) EventStoreError × W → Flow ℕ × W
  after_append again attempt (ok _, w) =
      let attempts = (attempt + 1) % u32_mod in
      if eqb attempts 0 then (crashed, w) else (yields attempts, w)
  after_append again attempt (err (version_conflict _ _ _), w) =
      if ltb attempt policy.max_retries
      then (wait_for_retry attempt >>= λ _. again (attempt + 1)) w
      else (fails (concurrency_error policy.max_retries), w)
  after_append again attempt (err e, w) = (fails (event_store_error e), w)

  unfoldable pub save_reconstructed : Option (CommandStateSnapshot Value) → Async W (Unit {0})
  save_reconstructed none = pure tt
  save_reconstructed (some snapshot) =
      λ w. settle_call (store.save_command_state_snapshot snapshot_id snapshot w)

  -- The loop of `execute_with_snapshot`, with as many attempts left as the first argument says.
  unfoldable pub attempt_from : ℕ → ℕ → Async W ℕ
  attempt_from zero attempt = exhaust
  attempt_from (suc attempts) attempt =
      (λ w. settle_call (store.load_command_state_snapshot snapshot_id w))
      >>= reconstruct_command_snapshot command store fuel stream_ids
      >>= λ rebuilt. save_reconstructed rebuilt.snapshot >>= λ _.
          lift (command.handle rebuilt.state) >>= λ events.
          lift (build_stream_writes_from_events ev events rebuilt.expected_versions) >>= λ writes.
          λ w. after_append (attempt_from attempts) attempt (store.append_events writes w)

  -- There are at most `max_retries + 1` attempts.
  unfoldable pub execute_with_snapshot : Async W ℕ
  execute_with_snapshot = attempt_from (policy.max_retries + 1) 0
