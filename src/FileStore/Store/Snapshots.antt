-- ===== src/FileStore/Store/Snapshots.antt =====
-- The saved command states of eventcore-fs/src/lib.rs: one file for each, named by a hash of the
-- identifier. The append lock lets one save run at a time.
pub mod Advance
use eventcore.Prelude.{
  ℕ, ◌≡◌, ◌≢◌, refl, sym, ◌∙◌, ◌⊎◌, inl, inr, String, List, Bool, true, false, Option, none, some,
  Result, ok, err, ◌>>=◌, map_err, ◌==◌, eq_iff, if◌then◌else◌, arith, Bool-cases, Result-cases,
}
use eventcore.Prelude.HashMap.{IsMap}
use eventcore.Types.Error.{EventStoreError, store_failure, append_events, read_stream}
use eventcore.Types.Snapshot.{CommandStateSnapshot, covers, covers_iff, Covers, Covers-refl}
use eventcore.FileStore.Format.{hex}
use eventcore.FileStore.Ingestion.{FileRead, contents, not_found, unreadable}

-- serde_json at the snapshot, and SHA-256
pub record SnapshotCodec (Value : Type 0) : Type 0 where
  pub to_vec : CommandStateSnapshot Value → Result String String
  pub from_str : String → Result (CommandStateSnapshot Value) String
  pub digest : String → List ℕ

-- what reading each file of the directory returns
abbrev pub SnapshotFiles : Type 0
SnapshotFiles = String → FileRead

-- How the writing ends: the file is there by a rename; it is not; or it is there, and syncing the
-- directory failed.
pub data FileOutcome : Type 0 where
  written : FileOutcome
  not_written : FileOutcome
  not_synced : FileOutcome

module _ {Value : Type 0} (codec : SnapshotCodec Value) where
  unfoldable pub snapshot_filename : String → String
  snapshot_filename snapshot_id = hex (codec.digest snapshot_id)

  -- what is returned of a file that has been read
  unfoldable pub loaded : FileRead → Result (Option (CommandStateSnapshot Value)) EventStoreError
  loaded (contents text) =
      map_err (λ _. store_failure read_stream) (codec.from_str text) >>= λ snapshot.
      ok (some snapshot)
  loaded not_found = ok none
  loaded (unreadable _) = err (store_failure read_stream)

  unfoldable pub load_command_state_snapshot :
      String → SnapshotFiles → Result (Option (CommandStateSnapshot Value)) EventStoreError
  unfolding loaded snapshot_filename
  load_command_state_snapshot snapshot_id files = loaded (files (snapshot_filename snapshot_id))

  -- Whether the stored snapshot stands in the way of the new one.
  unfoldable pub is_kept : CommandStateSnapshot Value → FileRead → Result Bool EventStoreError
  is_kept snapshot (contents text) =
      map_err (λ _. store_failure append_events) (codec.from_str text) >>= λ stored.
      ok (if covers snapshot stored then false else true)
  is_kept snapshot not_found = ok false
  is_kept snapshot (unreadable _) = err (store_failure append_events)

  abbrev pub write_snapshot : String → String → SnapshotFiles → SnapshotFiles
  write_snapshot filename body files =
      λ other. if other == filename then contents body else files other

  -- what follows the serializing
  unfoldable pub replace_snapshot :
      FileOutcome
      → (filename : String) → Result String String
      → SnapshotFiles
      → Result (Unit {0}) EventStoreError × SnapshotFiles
  replace_snapshot outcome filename (err _) files = (err (store_failure append_events), files)
  replace_snapshot not_written filename (ok body) files = (err (store_failure append_events), files)
  replace_snapshot not_synced filename (ok body) files =
      (err (store_failure append_events), write_snapshot filename body files)
  replace_snapshot written filename (ok body) files = (ok tt, write_snapshot filename body files)

  unfoldable pub after_test :
      FileOutcome
      → (filename : String) → CommandStateSnapshot Value
      → Result Bool EventStoreError
      → SnapshotFiles
      → Result (Unit {0}) EventStoreError × SnapshotFiles
  unfolding replace_snapshot
  after_test outcome filename snapshot (err error) files = (err error, files)
  after_test outcome filename snapshot (ok true) files = (ok tt, files)
  after_test outcome filename snapshot (ok false) files =
      replace_snapshot outcome filename (codec.to_vec snapshot) files

  unfoldable pub save_command_state_snapshot :
      FileOutcome
      → String
      → CommandStateSnapshot Value
      → SnapshotFiles
      → Result (Unit {0}) EventStoreError × SnapshotFiles
  unfolding after_test is_kept snapshot_filename
  save_command_state_snapshot outcome snapshot_id snapshot files =
      let filename = snapshot_filename snapshot_id in
      after_test outcome filename snapshot (is_kept snapshot (files filename)) files
