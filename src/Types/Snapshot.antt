-- ===== src/Types/Snapshot.antt =====
-- eventcore-types/src/snapshot.rs: the saved state of a command, and when one may replace another.
use eventcore.Prelude.{
  ◌≤◌, ◌≡◌, refl, List, [], Bool, true, false, Option, none, some, arith, leb, ◌↔◌,
}
use eventcore.Prelude.HashMap.{HashMap, lookup, all, all-lookup, all-of_lookup, IsMap}
use eventcore.Types.Error.{StreamId, StreamVersion}

-- `Value` is serde_json's.
pub record CommandStateReplayCheckpoint (Value : Type 0) : Type 0 where
  pub stream_id : StreamId
  pub state : Value
  pub stream_versions : HashMap StreamVersion

pub record CommandStateSnapshot (Value : Type 0) : Type 0 where
  pub state : Value
  pub stream_versions : HashMap StreamVersion
  pub replay_checkpoints : List (CommandStateReplayCheckpoint Value)

-- the test that `covers` makes of one stream of the other snapshot
abbrev is_current : HashMap StreamVersion → StreamId → StreamVersion → Bool
is_current versions stream_id version = elim (lookup stream_id versions) [
  | none ↦ false
  | some current ↦ leb version current
]

-- Every version of the second map is reached in the first.
abbrev pub Covers : HashMap StreamVersion → HashMap StreamVersion → Type 0
Covers m n =
    (k : StreamId) (v : StreamVersion)
    → lookup k n ≡ some v
    → (w : StreamVersion) × (lookup k m ≡ some w) × (v ≤ w)

is_current_inv :
    (o : Option StreamVersion) (v : StreamVersion)
    → (elim o [ none ↦ false | some current ↦ leb v current ]) ≡ true
    → (w : StreamVersion) × (o ≡ some w) × (v ≤ w)
is_current_inv none v h = cc
is_current_inv (some w) v h = (w, refl, ground arith)

module _ {Value : Type 0} where
  -- `CommandStateSnapshot::new`
  unfoldable pub new : Value → HashMap StreamVersion → CommandStateSnapshot Value
  new state stream_versions = record {
    state = state;
    stream_versions = stream_versions;
    replay_checkpoints = [];
  }

  unfoldable pub with_replay_checkpoints :
      CommandStateSnapshot Value
      → List (CommandStateReplayCheckpoint Value)
      → CommandStateSnapshot Value
  with_replay_checkpoints s checkpoints = record s { replay_checkpoints = checkpoints }

  unfoldable pub covers : CommandStateSnapshot Value → CommandStateSnapshot Value → Bool
  covers s other = all (is_current s.stream_versions) other.stream_versions

  pub covers_iff :
      (s other : CommandStateSnapshot Value)
      → IsMap other.stream_versions
      → (covers s other ≡ true) ↔ Covers s.stream_versions other.stream_versions
  unfolding covers
  covers_iff s other h = (
    λ c k v e.
        is_current_inv (lookup k s.stream_versions) v
          (all-lookup (is_current s.stream_versions) other.stream_versions k v c e),
    λ c.
        all-of_lookup (is_current s.stream_versions) other.stream_versions h
          λ k v e. let (w, p, q) = c k v e in ground arith,
  )

pub Covers-refl : (m : HashMap StreamVersion) → Covers m m
Covers-refl m k v e = (v, e, omega arith)

pub Covers-trans : (m n o : HashMap StreamVersion) → Covers m n → Covers n o → Covers m o
Covers-trans m n o f g k v e =
    let (w, p, q) = g k v e in let (x, p', q') = f k w p in (x, p', omega arith)
