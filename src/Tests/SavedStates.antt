-- ===== src/Tests/SavedStates.antt =====
-- A snapshot in a file that is replaced by one of two more events, although syncing the directory fails.
use eventcore.Prelude.{
  ℕ, String, [], ◌∷◌, Bool, true, false, Result, ok, err, ◌&&◌, ◌==◌, eqb, if◌then◌else◌,
}
use eventcore.Prelude.HashMap.{HashMap}
use eventcore.Types.Snapshot.{CommandStateSnapshot}
use eventcore.FileStore.Ingestion.{contents, not_found}
use eventcore.FileStore.Store.Snapshots.{SnapshotCodec, SnapshotFiles}
use eventcore.Tests.Transactions.{is_nil}

abbrev first_state : CommandStateSnapshot ℕ
first_state = record { state = 7; stream_versions = ("a", 1) ∷ []; replay_checkpoints = [] }

abbrev second_state : CommandStateSnapshot ℕ
second_state = record { state = 12; stream_versions = ("a", 3) ∷ []; replay_checkpoints = [] }

abbrev text_if : Bool → Result String String
text_if true = ok "12@a3"
text_if false = err "unknown"

abbrev are_versions : HashMap ℕ → Bool
are_versions [] = false
are_versions ((k, v) ∷ []) = k == "a" && eqb v 3
are_versions (_ ∷ _ ∷ _) = false

-- the test for the second snapshot
abbrev is_second : CommandStateSnapshot ℕ → Bool
is_second s = eqb s.state 12 && (are_versions s.stream_versions && is_nil s.replay_checkpoints)

-- A codec that writes the second snapshot and reads both.
abbrev codec : SnapshotCodec ℕ
codec = record {
  to_vec = λ s. text_if (is_second s);
  from_str = λ text. if text == "12@a3" then ok second_state else ok first_state;
  digest = λ _. 255 ∷ [];
}

abbrev files : SnapshotFiles
files = λ name. if name == "ff" then contents "7@a1" else not_found
