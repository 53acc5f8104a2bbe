-- ===== src/Execute/Interface.antt =====
-- The traits that an execution is generic over: `CommandLogic` of eventcore-types/src/command.rs
-- and `EventStore` of eventcore-types/src/store.rs.
use eventcore.Prelude.{
  ℕ, ◌%◌, ◌≡◌, String, List, [], ◌++◌, sym, ap, ◌∙◌, append-nil, append_assoc, map, drop, length,
  Option, some, Result, ok, err,
}
use eventcore.Prelude.HashMap.{lookup, IsMap}
use eventcore.Types.Error.{StreamId, StreamVersion, usize_mod, EventStoreError, CommandError}
use eventcore.Types.Declarations.{StreamDeclarations}
use eventcore.Types.Snapshot.{CommandStateSnapshot}
use eventcore.Types.Writes.{StreamWrites}
use eventcore.Memory.Append.{entries_for}

-- A command with event type `E`, state `S` and JSON values `Value`. Its methods are functions of
-- their arguments: a command that keeps hidden state of its own is not modelled.
pub record CommandLogic (E S Value : Type 0) : Type 0 where
  pub stream_declarations : StreamDeclarations
  pub initial : S
  pub apply : S → E → S
  pub handle : S → Result (List E) CommandError
  pub stream_resolver : Option (S → List StreamId)
  pub command_state_snapshot_id : Option String
  pub serialize_command_state_snapshot : S → Result Value CommandError
  pub deserialize_command_state_snapshot : Value → Result S CommandError

-- A store in a world `W`. An operation may change the world in other ways than its own, since other
-- processes work on the store meanwhile; `sleep` gives them time. A stream that is read is the
-- list of the items that it yields.
pub record EventStore (Any E Value W : Type 0) : Type 0 where
  pub read_stream : StreamId → W → Result (List (Result E EventStoreError)) EventStoreError × W
  pub read_stream_after :
      StreamId → StreamVersion → W → Result (List (Result E EventStoreError)) EventStoreError × W
  pub append_events : StreamWrites Any → W → Result (Unit {0}) EventStoreError × W
  pub load_command_state_snapshot :
      String → W → Result (Option (CommandStateSnapshot Value)) EventStoreError × W
  pub save_command_state_snapshot :
      String → CommandStateSnapshot Value → W → Result (Unit {0}) EventStoreError × W
  pub sleep : ℕ → W → W

module _ {Any W : Type 0} (history : W → StreamId → List Any) where
  -- Streams only grow.
  abbrev pub Grows : W → W → Type 0
  Grows w w' = (k : StreamId) → (more : List Any) × (history w' k ≡ history w k ++ more)

  -- The streams that the batch names have as many events as it expects.
  abbrev pub AtVersions : W → StreamWrites Any → Type 0
  AtVersions w writes =
      (k : StreamId) (v : StreamVersion)
      → lookup k writes.expected_versions ≡ some v
      → length (history w k) % usize_mod ≡ v

  -- How an append that began at `w` may end: it takes effect in one instant, at the world `c`.
  abbrev pub Commits : StreamWrites Any → W → Result (Unit {0}) EventStoreError × W → Type 0
  Commits writes w (ok _, w') =
      (c : W) × Grows w c
      × AtVersions c writes
      × ((k : StreamId) → history w' k ≡ history c k ++ entries_for k writes.entries)
  Commits writes w (err _, w') = Grows w w'

  pub Commits-of_ok :
      (writes : StreamWrites Any) (w c : W) (q : Result (Unit {0}) EventStoreError × W)
      → q.0 ≡ ok tt
      → Grows w c
      → AtVersions c writes
      → ((k : StreamId) → history q.1 k ≡ history c k ++ entries_for k writes.entries)
      → Commits writes w q
  Commits-of_ok writes w c (ok _, w') e g at app = (c, g, at, app)
  Commits-of_ok writes w c (err _, w') e g at app = absurd (cc)

  pub Commits-of_err :
      (writes : StreamWrites Any) (w : W) (q : Result (Unit {0}) EventStoreError × W)
      (x : EventStoreError)
      → q.0 ≡ err x
      → Grows w q.1
      → Commits writes w q
  Commits-of_err writes w (ok _, w') x e g = absurd (cc)
  Commits-of_err writes w (err _, w') x e g = g

  pub Grows-refl : (w : W) → Grows w w
  Grows-refl w k = ([], sym (append-nil (history w k)))

  pub Grows-trans : (a b c : W) → Grows a b → Grows b c → Grows a c
  Grows-trans a b c f g k =
      let (m, p) = f k in
      let (n, q) = g k in (m ++ n, q ∙ (ap (λ xs. xs ++ n) p ∙ append_assoc (history a k) m n))

  pub Commits-weaken :
      (writes : StreamWrites Any) (a b : W) (q : Result (Unit {0}) EventStoreError × W)
      → Grows a b
      → Commits writes b q
      → Commits writes a q
  Commits-weaken writes a b (ok _, w') g (c, h, at, app) = (c, Grows-trans a b c g h, at, app)
  Commits-weaken writes a b (err _, w') g h = Grows-trans a b w' g h

-- The contract of the trait: what the documentation of `EventStore` promises. `history` tells
-- what each stream holds in a world, and `decode` is how the store reads a stored event.
pub record Contract {Any E Value W : Type 0} (store : EventStore Any E Value W)
    (history : W → StreamId → List Any) (decode : StreamId → Any → Result E EventStoreError)
    : Type 0 where
  pub read_grows : (k : StreamId) (w : W) → Grows history w (store.read_stream k w).1
  pub read_items :
      (k : StreamId) (w : W) (items : List (Result E EventStoreError))
      → (store.read_stream k w).0 ≡ ok items
      → items ≡ map (decode k) (history (store.read_stream k w).1 k)
  pub read_after_grows :
      (k : StreamId) (v : StreamVersion) (w : W) → Grows history w (store.read_stream_after k v w).1
  pub read_after_items :
      (k : StreamId) (v : StreamVersion) (w : W) (items : List (Result E EventStoreError))
      → (store.read_stream_after k v w).0 ≡ ok items
      → items ≡ map (decode k) (drop v (history (store.read_stream_after k v w).1 k))
  pub append_commits :
      (writes : StreamWrites Any) (w : W)
      → IsMap writes.expected_versions
      → Commits history writes w (store.append_events writes w)
  pub sleep_grows : (ms : ℕ) (w : W) → Grows history w (store.sleep ms w)
