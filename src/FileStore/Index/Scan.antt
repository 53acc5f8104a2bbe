-- ===== src/FileStore/Index/Scan.antt =====
-- `scan_index` of eventcore-fs/src/index.rs: the index of the files in the directory of events.
use eventcore.Prelude.{
  String, List, [], ◌∷◌, Bool, true, false, Option, none, some, Result, ok, err, ◌>>=◌, map_err,
  ◌==◌,
}
use eventcore.Prelude.UuidMap.{Uuid}
use eventcore.FileStore.Format.{
  FsEventStoreError, init_failed, valid, integrity, Codec, load_transaction,
}
use eventcore.FileStore.Ingestion.{LogCodec, FileRead, load, persist}
use eventcore.FileStore.Index.{Index, Transaction, build_index}

-- an entry of the directory: its path, the extension of its name, and what reading it returns
pub record DirEntry : Type 0 where
  pub path : String
  pub extension : Option String
  pub read : Result String String

module _ {Value : Type 0} (codec : Codec Value) (log_codec : LogCodec) where
  abbrev is_transaction_file : Option String → Bool
  is_transaction_file none = false
  is_transaction_file (some extension) = extension == "jsonl"

  -- The loop over the directory, whose iterator may also fail.
  unfoldable pub scan_entries :
      String
      → List (Result DirEntry String)
      → Result (List (Transaction Value) × List (Uuid × String)) FsEventStoreError
  scan_entries root [] = ok ([], [])
  scan_entries root (item ∷ rest) = map_err (init_failed root) item >>= λ entry.
      elim (is_transaction_file entry.extension) [
        | false ↦ scan_entries root rest
        | true ↦ load_transaction codec entry.path entry.read >>= λ loaded.
            scan_entries root rest >>= λ (transactions, failures). elim loaded [
              | valid header events ↦ ok ((header, events) ∷ transactions, failures)
              | integrity id detail ↦ ok (transactions, (id, detail) ∷ failures)
            ]
      ]

  -- `listing` is what `fs::read_dir` returns. The outer `none` stands for a recursion in `linearize`
  -- that does not end.
  unfoldable pub scan_index :
      (root log_path : String)
      → Result (List (Result DirEntry String)) String
      → FileRead
      → (opened written : Result (Unit {0}) String) (partial text : String)
      → Option (Result (Index Value) FsEventStoreError)
  unfolding scan_entries
  scan_index root log_path listing log_read opened written partial text =
      elim (map_err (init_failed root) listing >>= scan_entries root) [
        | err error ↦ some (err error)
        | ok (transactions, failures) ↦ elim (load log_codec log_path log_read) [
          | err error ↦ some (err error)
          | ok log ↦ elim (build_index transactions log) [
            | none ↦ none
            | some (index, new_entries) ↦ some (
                (persist log_codec log_path opened written partial new_entries text).0 >>= λ _.
                ok (record index { integrity_failures = failures }))
          ]
        ]
      ]
