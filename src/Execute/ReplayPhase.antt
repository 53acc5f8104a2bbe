-- ===== src/Execute/ReplayPhase.antt =====
-- The replay loop of the snapshot path reads what the read phase of the pipeline reads.
use native.Mathlib.Nat.{zero-add}
use mathlib.Core.Path.{subst₂}
use eventcore.Prelude.{
  ℕ, zero, suc, ◌+◌, ◌%◌, ◌≡◌, refl, sym, ap, ◌∙◌, subst, List, [], ◌∷◌, map, length, true, false,
  none, some, Result, ok, err, arith, Bool-cases, ◌⊎◌, inl, inr,
}
use eventcore.Prelude.HashMap
use eventcore.Prelude.HashMap.{HashMap, lookup}
use eventcore.Prelude.HashSet
use eventcore.Prelude.HashSet.{contains}
use eventcore.Types.Error.{StreamId, increment, usize_mod, EventStoreError}
use eventcore.Execute.Interface.{CommandLogic, EventStore, Contract, Grows}
use eventcore.Execute.Pipeline.{Reading, initial_reading, next_unvisited, discover, end_stream}
use eventcore.Execute.Flow.{Flow, yields, lift, go_on, go_on-yields, lift-yields}
use eventcore.Execute.Replay.{
  ReplayProgress, apply_items, open_stream, apply_opened, apply_command_stream, record_stream,
  replay_remaining_streams,
}
use eventcore.Execute.Discovery.{next_old}
use eventcore.Execute.Scheduling.{Same, discover-Same}
use eventcore.Execute.Atomic.{fold_events, read_one}
use eventcore.Execute.ReadPhase.{Recorded-whole}
use eventcore.Execute.Trail.{IsReached, Trail, Trail-last, Trail-Grows}

List-cases {ℓ} : {A : Type ℓ} (xs : List A) → (xs ≡ []) ⊎ ((x : A) × (ys : List A) × (xs ≡ x ∷ ys))
List-cases [] = inl refl
List-cases (x ∷ xs) = inr (x, xs, refl)

-- What was serialized is read back: serde_json's promise for a state type.
abbrev pub RoundTrips : {E S Value : Type 0} → CommandLogic E S Value → Type 0
RoundTrips {S = S} {Value = Value} command =
    (s : S) (v : Value)
    → command.serialize_command_state_snapshot s ≡ ok v
    → command.deserialize_command_state_snapshot v ≡ ok s

module _ {S Value : Type 0} where
  -- A replay that stands where the read phase `r` stands: it may have yet to skip streams of its
  -- queue that it visited.
  pub record StandsAt (replay : ReplayProgress S Value) (r : Reading S) : Type 0 where
    pub same_state : replay.state ≡ r.state
    pub same_versions : replay.expected_versions ≡ r.expected_versions
    pub same_visited : replay.visited ≡ r.visited
    pub same_scheduled : Same replay.scheduled r.scheduled
    pub same_next : next_unvisited r.visited replay.queue ≡ next_unvisited r.visited r.queue

module _ {Any E S Value W : Type 0} (command : CommandLogic E S Value)
    (store : EventStore Any E Value W) where
  -- A stream that was applied was folded whole.
  apply_items_lem :
      (items : List (Result E EventStoreError)) (s t : S) (n c : ℕ)
      → apply_items command store items s (n % usize_mod) ≡ ok (t, c)
      → (es : List E) × (items ≡ map ok es)
        × (t ≡ fold_events command s es)
        × (c ≡ (n + length es) % usize_mod)
  unfolding apply_items increment
  apply_items_lem [] s t n c h = let e : n % usize_mod ≡ c = cc in ([], refl, cc, omega arith)
  apply_items_lem (err e ∷ items) s t n c h = absurd (cc)
  apply_items_lem (ok x ∷ items) s t n c h =
      let counted : (n % usize_mod + 1) % usize_mod ≡ (n + 1) % usize_mod = omega arith in
      let (es, a, b, d) = apply_items_lem items (command.apply s x) t (n + 1) c (
        subst (λ k. apply_items command store items (command.apply s x) k ≡ ok (t, c)) counted h) in
      (x ∷ es, ap (λ xs. ok x ∷ xs) a, b, d ∙ ap (λ k. k % usize_mod) (omega arith))

  apply_opened_inv :
      (s t : S) (c : ℕ) (v : W) (q : Result (List (Result E EventStoreError)) EventStoreError × W)
      → apply_opened command store s q ≡ (yields (t, c), v)
      → (items : List (Result E EventStoreError)) × (q ≡ (ok items, v))
        × (apply_items command store items s 0 ≡ ok (t, c))
  unfolding apply_opened
  apply_opened_inv s t c v (ok items, w) h =
      let (a, b) = lift-yields (apply_items command store items s 0) w v (t, c) h in
      (items, ap (λ x. (ok items, x)) b, a)
  apply_opened_inv s t c v (err e, w) h = absurd (cc)

  -- A stream that was applied was read whole, and folded.
  applied :
      (s t : S) (k : StreamId) (c : ℕ) (w v : W)
      → apply_command_stream command store s k none w ≡ (yields (t, c), v)
      → (es : List E) × (store.read_stream k w ≡ (ok (map ok es), v))
        × (t ≡ fold_events command s es)
        × (c ≡ length es % usize_mod)
  unfolding apply_command_stream open_stream
  applied s t k c w v h =
      let (items, q, a) = apply_opened_inv s t c v (store.read_stream k w) h in
      let (es, same, folded, counted) = apply_items_lem items s t 0 c a in
      (
        es,
        q ∙ ap (λ xs. (ok xs, v)) same,
        folded,
        counted ∙ ap (λ n. n % usize_mod) (zero-add (length es)),
      )

  replay_nil :
      (fuel : ℕ) (replay : ReplayProgress S Value) (w : W)
      → replay.queue ≡ []
      → replay_remaining_streams command store (suc fuel) replay w ≡ (yields replay, w)
  unfolding replay_remaining_streams
  replay_nil fuel replay w h =
      subst
        (λ (p : ReplayProgress S Value).
          replay_remaining_streams command store (suc fuel) p w ≡ (yields p, w))
        (ap (λ q. record replay { queue = q }) (sym h)) refl

  replay_old :
      (fuel : ℕ) (replay : ReplayProgress S Value) (w : W) (k : StreamId) (rest : List StreamId)
      → replay.queue ≡ k ∷ rest
      → contains k replay.visited ≡ true
      → replay_remaining_streams command store (suc fuel) replay w
        ≡ replay_remaining_streams command store fuel (record replay { queue = rest }) w
  unfolding replay_remaining_streams
  replay_old fuel replay w k rest h c = rw (replay_remaining_streams, h, c)

  -- What the loop does with a stream that it has not visited.
  abbrev visit :
      ℕ
      → ReplayProgress S Value
      → StreamId
      → List StreamId
      → S × ℕ
      → W
      → Flow (ReplayProgress S Value) × W
  visit fuel replay k rest read v =
      go_on
        (λ saved. replay_remaining_streams command store fuel (
          record_stream command store k read saved
            (record replay { queue = rest; visited = HashSet.insert k replay.visited })))
        (lift (command.serialize_command_state_snapshot read.0) v)

  replay_new :
      (fuel : ℕ) (replay : ReplayProgress S Value) (w : W) (k : StreamId) (rest : List StreamId)
      → replay.queue ≡ k ∷ rest
      → contains k replay.visited ≡ false
      → replay_remaining_streams command store (suc fuel) replay w
        ≡ go_on
            (visit fuel replay k rest)
            (apply_command_stream command store replay.state k none w)
  unfolding replay_remaining_streams
  replay_new fuel replay w k rest h c = rw (replay_remaining_streams, h, c)

  -- One more stream in the replay is one more stream in the read phase.
  record_stream-StandsAt :
      (replay : ReplayProgress S Value) (r : Reading S) (k : StreamId) (rest : List StreamId)
      (t : S) (c : ℕ) (saved : Value) (es : List E)
      → StandsAt replay r
      → t ≡ fold_events command replay.state es
      → c ≡ length es % usize_mod
      → StandsAt
          (record_stream command store k
            (t, c)
            saved
            (record replay { queue = rest; visited = HashSet.insert k replay.visited }))
          (read_one command r k rest es)
  unfolding record_stream end_stream
  record_stream-StandsAt replay r k rest t c saved es h folded counted =
      let state = folded ∙ ap (λ s. fold_events command s es) h.same_state in
      record {
        same_state = state;
        same_versions = cc (counted, h.same_versions);
        same_visited = ap (HashSet.insert k) h.same_visited;
        same_scheduled =
            subst
              (λ x.
                Same (discover command x (rest, replay.scheduled)).1
                  (discover command (fold_events command r.state es) (rest, r.scheduled)).1)
              (sym state)
              (discover-Same command (fold_events command r.state es) rest replay.scheduled
                r.scheduled h.same_scheduled).1;
        same_next = ap (next_unvisited (HashSet.insert k r.visited)) (
            ap (λ x. (discover command x (rest, replay.scheduled)).0) state
            ∙ (discover-Same command (fold_events command r.state es) rest replay.scheduled
                r.scheduled h.same_scheduled).0);
      }

module _ {Any E S Value W : Type 0} (command : CommandLogic E S Value)
    (store : EventStore Any E Value W) (history : W → StreamId → List Any)
    (decode : StreamId → Any → Result E EventStoreError) (contract : Contract store history decode)
    (law : RoundTrips command) where
  -- Where a replay ends that yields: nothing is left to read, the read phase stands there too, and
  -- the checkpoints record it.
  abbrev pub EndsAt : ReplayProgress S Value → W → Type 0
  EndsAt replay w =
      (log : HashMap (List E)) × (r : Reading S) × Trail command history decode w []
        (initial_reading command) replay.checkpoints log r
      × StandsAt replay r
      × (next_unvisited r.visited r.queue ≡ none)

  next_empty : (visited queue : List StreamId) → queue ≡ [] → next_unvisited visited queue ≡ none
  unfolding next_unvisited
  next_empty visited queue h = ap (next_unvisited visited) h

  pub next_fresh :
      (visited queue : List StreamId) (k : StreamId) (rest : List StreamId)
      → queue ≡ k ∷ rest
      → contains k visited ≡ false
      → next_unvisited visited queue ≡ some (k, rest)
  unfolding next_unvisited
  next_fresh visited queue k rest h c = ap (next_unvisited visited) h ∙ ground arith

  read-Grows :
      (k : StreamId) (w v : W) (x : Result (List (Result E EventStoreError)) EventStoreError)
      → store.read_stream k w ≡ (x, v)
      → Grows history w v
  read-Grows k w v x h = subst (λ q. Grows history w q.1) h (contract.read_grows k w)

  read_decodes :
      (k : StreamId) (w v : W) (es : List E)
      → store.read_stream k w ≡ (ok (map ok es), v)
      → map (decode k) (history v k) ≡ map ok es
  read_decodes k w v es h = sym (
      subst (λ q. map ok es ≡ map (decode k) (history q.1 k)) h
        (contract.read_items k w (map ok es) (ap (λ q. q.0) h)))

  -- The checkpoint of a stream that was read whole.
  checkpoint-IsReached :
      (replay : ReplayProgress S Value) (w : W) (r : Reading S) (k : StreamId)
      (rest : List StreamId) (read : S × ℕ) (saved : Value) (es : List E)
      → StandsAt
          (record_stream command store k read saved
            (record replay { queue = rest; visited = HashSet.insert k replay.visited }))
          (read_one command r k rest es)
      → next_unvisited r.visited r.queue ≡ some (k, rest)
      → map (decode k) (history w k) ≡ map ok es
      → command.serialize_command_state_snapshot read.0 ≡ ok saved
      → IsReached command history decode w r
          (record {
            stream_id = k;
            state = saved;
            stream_versions = HashMap.insert k read.1 replay.expected_versions;
          })
          rest
          es
  unfolding record_stream
  checkpoint-IsReached replay w r k rest read saved es at n whole stored = record {
    next_stream = n;
    events_read = Recorded-whole command history decode w k es whole;
    restores = law read.0 saved stored ∙ ap ok at.same_state;
    versions_read = at.same_versions;
  }

  -- A replay that starts where a read phase stands, with the checkpoints of what that has read, and
  -- that yields, ends where a whole read phase ends: nothing is left to read; the state, the versions
  -- and the visited streams are the read phase's; and each checkpoint restores the state that the
  -- read phase had after its stream, at the versions that were read by then, from events that the
  -- stream still begins with. The store keeps the contract of `EventStore`, others append meanwhile,
  -- and what is serialized is read back.
  pub replay-EndsAt :
      (fuel : ℕ) (replay replay' : ReplayProgress S Value) (w w' : W) (log : HashMap (List E))
      (r : Reading S)
      → replay_remaining_streams command store fuel replay w ≡ (yields replay', w')
      → Trail command history decode w [] (initial_reading command) replay.checkpoints log r
      → StandsAt replay r
      → EndsAt replay' w'
  unfolding replay_remaining_streams
  replay-EndsAt zero replay replay' w w' log r h s at = absurd (cc)
  replay-EndsAt (suc fuel) replay replay' w w' log r h s at = elim (List-cases replay.queue) [
    | inl empty ↦
        let ended = sym (replay_nil command store fuel replay w empty) ∙ h in
        let p : replay ≡ replay' = cc in
        let q : w ≡ w' = cc in
        subst₂ EndsAt p q
          (log, r, s, at, sym at.same_next ∙ next_empty r.visited replay.queue empty)
    | inr (k, rest, front) ↦ elim (Bool-cases (contains k replay.visited)) [
      | inl old ↦
          replay-EndsAt fuel (record replay { queue = rest }) replay' w w' log r
            (sym (replay_old command store fuel replay w k rest front old) ∙ h) s
            (record {
              same_state = at.same_state;
              same_versions = at.same_versions;
              same_visited = at.same_visited;
              same_scheduled = at.same_scheduled;
              same_next =
                  sym (
                    next_old r.visited rest k
                      (subst (λ v. contains k v ≡ true) at.same_visited old))
                  ∙ (ap (next_unvisited r.visited) (sym front) ∙ at.same_next);
            })
      | inr fresh ↦
          let (read, v, opened, went_on) =
            go_on-yields (visit command store fuel replay k rest)
              (apply_command_stream command store replay.state k none w) replay' w'
              (sym (replay_new command store fuel replay w k rest front fresh) ∙ h) in
          let (es, whole, folded, counted) =
            applied command store replay.state read.0 k read.1 w v opened in
          let (saved, u, lifted, looped) =
            go_on-yields
              (λ saved. replay_remaining_streams command store fuel (
                record_stream command store k read saved
                  (record replay { queue = rest; visited = HashSet.insert k replay.visited })))
              (lift (command.serialize_command_state_snapshot read.0) v) replay' w' went_on in
          let popped =
            sym at.same_next
            ∙ next_fresh r.visited replay.queue k rest front
                (subst (λ x. contains k x ≡ false) at.same_visited fresh) in
          let stands =
            record_stream-StandsAt command store replay r k rest read.0 read.1 saved es at folded
              counted in
          let stored =
            lift-yields (command.serialize_command_state_snapshot read.0) v u saved lifted in
          replay-EndsAt fuel
            (record_stream command store k read saved
              (record replay { queue = rest; visited = HashSet.insert k replay.visited }))
            replay' u w' (HashMap.insert k es log) (read_one command r k rest es) looped
            (subst
              (λ x.
                Trail command history decode x [] (initial_reading command)
                  (record_stream command store k read saved (record replay {
                    queue = rest;
                    visited = HashSet.insert k replay.visited;
                  })).checkpoints
                  (HashMap.insert k es log) (read_one command r k rest es))
              stored.1
              (unfold record_stream in
                (Trail-last command history decode v [] log (initial_reading command) r
                  replay.checkpoints _ rest es
                  (Trail-Grows command history decode w v [] log (initial_reading command) r
                    replay.checkpoints (read-Grows k w v (ok (map ok es)) whole) s)
                  (checkpoint-IsReached replay v r k rest read saved es stands popped
                    (read_decodes k w v es whole) stored.0))))
            stands
    ]
  ]
