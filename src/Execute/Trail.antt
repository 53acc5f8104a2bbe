-- ===== src/Execute/Trail.antt =====
-- The checkpoints of a replay as a record of what was read.
use mathlib.Core.Path.{subst₂}
use eventcore.Prelude.{◌≡◌, sym, ap, subst, List, [], ◌∷◌, ◌++◌, none, some, Result, ok}
use eventcore.Prelude.HashMap
use eventcore.Prelude.HashMap.{HashMap}
use eventcore.Types.Error.{StreamId, EventStoreError}
use eventcore.Types.Snapshot.{CommandStateReplayCheckpoint, CommandStateSnapshot}
use eventcore.Execute.Interface.{CommandLogic, Grows}
use eventcore.Execute.Pipeline.{Reading, initial_reading, next_unvisited}
use eventcore.Execute.Atomic.{read_one}
use eventcore.Execute.ReadPhase.{Recorded, Recorded-Grows, ReadSoFar, ReadSoFar-then}

module _ {Any E S Value W : Type 0} (command : CommandLogic E S Value)
    (history : W → StreamId → List Any) (decode : StreamId → Any → Result E EventStoreError) where
  -- A checkpoint holds what the read phase reaches after one more stream, of which the events `es`
  -- were read and `rest` is the queue that is left.
  pub record IsReached (w : W) (r : Reading S) (c : CommandStateReplayCheckpoint Value)
      (rest : List StreamId) (es : List E) : Type 0 where
    pub next_stream : next_unvisited r.visited r.queue ≡ some (c.stream_id, rest)
    pub events_read : Recorded command history decode w c.stream_id es
    pub restores :
        command.deserialize_command_state_snapshot c.state
        ≡ ok (read_one command r c.stream_id rest es).state
    pub versions_read :
        c.stream_versions ≡ (read_one command r c.stream_id rest es).expected_versions

  -- Checkpoint by checkpoint, the read phase goes from `r` to `r'`. `log` and `log'` have the events
  -- of the streams that were read before and after.
  abbrev pub Trail :
      W
      → HashMap (List E)
      → Reading S
      → List (CommandStateReplayCheckpoint Value)
      → HashMap (List E)
      → Reading S
      → Type 0
  Trail w log r [] log' r' = (log ≡ log') × (r ≡ r')
  Trail w log r (c ∷ cs) log' r' =
      (rest : List StreamId) × (es : List E) × IsReached w r c rest es
      × Trail w (HashMap.insert c.stream_id es log) (read_one command r c.stream_id rest es) cs log'
          r'

  IsReached-Grows :
      (a b : W) (r : Reading S) (c : CommandStateReplayCheckpoint Value) (rest : List StreamId)
      (es : List E)
      → Grows history a b
      → IsReached a r c rest es
      → IsReached b r c rest es
  IsReached-Grows a b r c rest es g h = record {
    next_stream = h.next_stream;
    events_read = Recorded-Grows command history decode a b c.stream_id es g h.events_read;
    restores = h.restores;
    versions_read = h.versions_read;
  }

  -- Time passes.
  pub Trail-Grows :
      (a b : W) (log log' : HashMap (List E)) (r r' : Reading S)
      (cs : List (CommandStateReplayCheckpoint Value))
      → Grows history a b
      → Trail a log r cs log' r'
      → Trail b log r cs log' r'
  Trail-Grows a b log log' r r' [] g t = t
  Trail-Grows a b log log' r r' (c ∷ cs) g (rest, es, h, t) = (
    rest,
    es,
    IsReached-Grows a b r c rest es g h,
    Trail-Grows a b (HashMap.insert c.stream_id es log) log'
        (read_one command r c.stream_id rest es) r' cs g t,
  )

  -- One more checkpoint.
  pub Trail-last :
      (w : W) (log log' : HashMap (List E)) (r r' : Reading S)
      (cs : List (CommandStateReplayCheckpoint Value)) (c : CommandStateReplayCheckpoint Value)
      (rest : List StreamId) (es : List E)
      → Trail w log r cs log' r'
      → IsReached w r' c rest es
      → Trail w log r
          (cs ++ c ∷ [])
          (HashMap.insert c.stream_id es log')
          (read_one command r' c.stream_id rest es)
  Trail-last w log log' r r' [] c rest es (p, q) h = (
    rest,
    es,
    subst (λ x. IsReached w x c rest es) (sym q) h,
    (ap (HashMap.insert c.stream_id es) p, ap (λ x. read_one command x c.stream_id rest es) q),
  )
  Trail-last w log log' r r' (d ∷ cs) c rest es (rest', es', h', t) h = (
    rest',
    es',
    h',
    Trail-last w (HashMap.insert d.stream_id es' log) log'
        (read_one command r d.stream_id rest' es') r' cs c rest es t h,
  )

  -- What was read along the trail was read.
  pub Trail-ReadSoFar :
      (w₀ w : W) (log log' : HashMap (List E)) (r r' : Reading S)
      (cs : List (CommandStateReplayCheckpoint Value))
      → ReadSoFar command history decode w₀ w log r
      → Trail w log r cs log' r'
      → ReadSoFar command history decode w₀ w log' r'
  Trail-ReadSoFar w₀ w log log' r r' [] s (p, q) =
      subst₂ (ReadSoFar command history decode w₀ w) p q s
  Trail-ReadSoFar w₀ w log log' r r' (c ∷ cs) s (rest, es, h, t) =
      Trail-ReadSoFar w₀ w (HashMap.insert c.stream_id es log) log'
        (read_one command r c.stream_id rest es) r' cs
        (ReadSoFar-then command history decode w₀ w log r c.stream_id rest es s h.next_stream
          h.events_read)
        t

  -- A snapshot that an execution of this command may have saved: its checkpoints record a whole read
  -- phase, from the start to where nothing is left to read.
  pub record IsHonest (w : W) (snapshot : CommandStateSnapshot Value) : Type 0 where
    pub log : HashMap (List E)
    pub reading : Reading S
    pub trail : Trail w [] (initial_reading command) snapshot.replay_checkpoints log reading
    pub all_read : next_unvisited reading.visited reading.queue ≡ none
    pub restores_state :
        command.deserialize_command_state_snapshot snapshot.state ≡ ok reading.state
    pub versions_read : snapshot.stream_versions ≡ reading.expected_versions

  pub IsHonest-Grows :
      (a b : W) (snapshot : CommandStateSnapshot Value)
      → Grows history a b
      → IsHonest a snapshot
      → IsHonest b snapshot
  IsHonest-Grows a b snapshot g h = record {
    log = h.log;
    reading = h.reading;
    trail =
        Trail-Grows a b [] h.log (initial_reading command) h.reading snapshot.replay_checkpoints g
          h.trail;
    all_read = h.all_read;
    restores_state = h.restores_state;
    versions_read = h.versions_read;
  }
