-- ===== src/FileStore/Store/Snapshots/Advance.antt =====
-- What a save over a stored snapshot leaves.
use eventcore.Prelude.{◌≡◌, String, false, some, Result, ok, ◌==◌, if◌then◌else◌}
use eventcore.Types.Error.{EventStoreError}
use eventcore.Types.Snapshot.{CommandStateSnapshot, covers, Covers}
use eventcore.FileStore.Store.Snapshots.{
  SnapshotCodec, SnapshotFiles, snapshot_filename, load_command_state_snapshot,
}

module _ {Value : Type 0} (codec : SnapshotCodec Value) where
  -- what is documented of serde_json: a snapshot is read back as what was written
  abbrev pub ReadsBack : Type 0
  ReadsBack =
      (s : CommandStateSnapshot Value) (text : String)
      → codec.to_vec s ≡ ok text
      → codec.from_str text ≡ ok s

  -- After a save there is a snapshot that reaches each version of `current`; it is the one of the two
  -- that the test selects, if the save succeeded. The other files are as before.
  pub record IsAdvanced (s current : CommandStateSnapshot Value) (snapshot_id : String)
      (files : SnapshotFiles) (after : Result (Unit {0}) EventStoreError × SnapshotFiles)
      : Type 0 where
    pub kept : CommandStateSnapshot Value
    pub found : load_command_state_snapshot codec snapshot_id after.1 ≡ ok (some kept)
    pub covering : Covers kept.stream_versions current.stream_versions
    pub selected : after.0 ≡ ok tt → kept ≡ (if covers s current then s else current)
    pub others :
        (name : String)
        → (name == snapshot_filename codec snapshot_id) ≡ false
        → after.1 name ≡ files name

  module _ (reads_back : ReadsBack) (s current : CommandStateSnapshot Value) (snapshot_id : String)
      (files : SnapshotFiles)
      (stored : load_command_state_snapshot codec snapshot_id files ≡ ok (some current)) where
    abbrev filename : String
    filename = snapshot_filename codec snapshot_id
