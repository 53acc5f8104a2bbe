-- ===== src/FileStore/Ingestion.antt =====
-- eventcore-fs/src/ingestion.rs: the sequence in which this replica came to know each event.
pub mod Allocation
pub mod Persistence
use Prim.Native.Nat.{max}
use Prim.Native.String
use eventcore.Prelude.{
  ℕ, ◌+◌, ◌*◌, ◌%◌, String, List, [], ◌∷◌, Option, Result, ok, err, ◌>>=◌, map_err, if◌then◌else◌,
}
use eventcore.Prelude.UuidMap
use eventcore.Prelude.UuidMap.{Uuid, UuidMap, lookup}
use eventcore.Types.Error.{usize_mod}
use eventcore.FileStore.Format.{FsEventStoreError, init_failed, corrupted}
use eventcore.FileStore.Format.Lines.{lines, is_blank}

-- the range of `u64`
abbrev pub u64_mod : ℕ
u64_mod = usize_mod

pub record LogEntry : Type 0 where
  pub event_id : Uuid
  pub seq : ℕ

pub record IngestionLog : Type 0 where
  pub seq_by_event : UuidMap ℕ
  pub next_seq : ℕ

-- serde_json at `LogEntry`
pub record LogCodec : Type 0 where
  pub to_string : LogEntry → Result String String
  pub from_str : String → Result LogEntry String

-- what `fs::read_to_string` returns: the contents, `NotFound`, or another error
pub data FileRead : Type 0 where
  contents : String → FileRead
  not_found : FileRead
  unreadable : String → FileRead

-- The number fills the eight high bytes of the sixteen.
unfoldable pub position_from_seq : ℕ → Uuid
position_from_seq seq = seq * u64_mod

unfoldable pub seq_of : IngestionLog → Uuid → Option ℕ
seq_of log event_id = lookup event_id log.seq_by_event

unfoldable pub allocate : Uuid → IngestionLog → ℕ × IngestionLog
allocate event_id log = (
  log.next_seq,
  record {
    seq_by_event = UuidMap.insert event_id log.next_seq log.seq_by_event;
    next_seq = (log.next_seq + 1) % u64_mod;
  },
)

module _ (codec : LogCodec) (path : String) where
  unfoldable pub parse_entry : String → Result LogEntry FsEventStoreError
  parse_entry line =
      map_err (λ error. corrupted path (String.◌++◌ "invalid ingestion-log line: " error))
        (codec.from_str line)

  -- The loop over the lines, with the map that it fills and the largest number so far.
  unfoldable pub load_lines : List String → UuidMap ℕ → ℕ → Result (UuidMap ℕ × ℕ) FsEventStoreError
  unfolding parse_entry
  load_lines [] seq_by_event max_seq = ok (seq_by_event, max_seq)
  load_lines (line ∷ rest) seq_by_event max_seq =
      let skipped = load_lines rest seq_by_event max_seq in
      let read = parse_entry line >>= λ entry.
      load_lines rest (UuidMap.insert entry.event_id entry.seq seq_by_event)
        (max max_seq entry.seq) in
      if is_blank line then skipped else read

  text_of_read : FileRead → Result String FsEventStoreError
  text_of_read (contents text) = ok text
  text_of_read not_found = ok ""
  text_of_read (unreadable source) = err (init_failed path source)

  unfoldable pub load : FileRead → Result IngestionLog FsEventStoreError
  unfolding load_lines text_of_read
  load read = text_of_read read >>= λ text.
      load_lines (lines text) [] 0 >>= λ (seq_by_event, max_seq).
      ok (record { seq_by_event = seq_by_event; next_seq = (max_seq + 1) % u64_mod })

  unfoldable pub serialize_entry : LogEntry → Result String FsEventStoreError
  serialize_entry entry =
      map_err
        (λ error. corrupted path (String.◌++◌ "failed to serialize ingestion-log entry: " error))
        (codec.to_string entry)

  -- The loop that fills the text to append.
  unfoldable pub body_of : List (Uuid × ℕ) → Result String FsEventStoreError
  body_of [] = ok ""
  body_of ((event_id, seq) ∷ entries) =
      serialize_entry (record { event_id = event_id; seq = seq }) >>= λ line.
      body_of entries >>= λ rest. ok (String.◌++◌ line (String.◌++◌ "\n" rest))

  -- `opened` and `written` are what opening the file and writing to it return, and `text` is what the
  -- file holds. A write that fails may leave a part of the new text: `partial`.
  unfoldable pub persist :
      (opened written : Result (Unit {0}) String) (partial : String)
      → List (Uuid × ℕ)
      → String
      → Result (Unit {0}) FsEventStoreError × String
  persist opened written partial [] text = (ok tt, text)
  persist opened written partial (entry ∷ entries) text = elim opened [
    | err source ↦ (err (init_failed path source), text)
    | ok _ ↦ elim (body_of (entry ∷ entries)) [
      | err error ↦ (err error, text)
      | ok body ↦ elim written [
        | err source ↦ (err (init_failed path source), String.◌++◌ text partial)
        | ok _ ↦ (ok tt, String.◌++◌ text body)
      ]
    ]
  ]
