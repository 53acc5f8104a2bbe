-- ===== src/FileStore/Format.antt =====
-- eventcore-fs/src/format.rs and error.rs: transaction files, their integrity anchor and the errors
-- of the file store.
pub mod Lines
pub mod Plain
pub mod RoundTrip
use Prim.Native.String
use eventcore.Prelude.{
  ℕ, ◌%◌, String, List, [], ◌∷◌, ◌++◌, Bool, true, false, Option, none, some, Result, ok, err,
  ◌>>=◌, map_err, get_elem?, if◌then◌else◌, ◌==◌,
}
use Prim.Native.Nat.{◌/◌}
use eventcore.Prelude.HashMap.{HashMap}
use eventcore.Prelude.UuidMap.{Uuid}
use eventcore.Types.Error.{StreamVersion, EventStoreError, store_failure, append_events}
use eventcore.FileStore.Format.Lines.{split_line, lines, is_blank, join}

-- A path is the text that names it, and the cause of an I/O error its message.
pub data FsEventStoreError : Type 0 where
  init_failed : String → String → FsEventStoreError
  store_locked : String → FsEventStoreError
  corrupted : String → String → FsEventStoreError
  replica_identity_conflict : Uuid → Uuid → Uuid → FsEventStoreError

abbrev pub format_version_of_file : ℕ
format_version_of_file = 2

-- The base versions are a `BTreeMap`: its entries stand in the order of their keys.
pub record TransactionHeader : Type 0 where
  pub format_version : ℕ
  pub transaction_id : Uuid
  pub replica_id : Uuid
  pub parent_transaction_ids : List Uuid
  pub created_at : String
  pub stream_bases : HashMap StreamVersion
  pub content_hash : Option String

-- `Value` is serde_json's.
pub record EventEnvelope (Value : Type 0) : Type 0 where
  pub event_id : Uuid
  pub stream_id : String
  pub stream_version : StreamVersion
  pub event_type : String
  pub event_data : Value
  pub metadata : Value

pub data Line (Value : Type 0) : Type 0 where
  header_line : TransactionHeader → Line Value
  event_line : EventEnvelope Value → Line Value

pub data LoadedTransaction (Value : Type 0) : Type 0 where
  valid : TransactionHeader → List (EventEnvelope Value) → LoadedTransaction Value
  integrity : Uuid → String → LoadedTransaction Value

-- What the file store calls of other crates: serde_json at `Line`, SHA-256 of sha2 as bytes, and the
-- text of a `Uuid`.
pub record Codec (Value : Type 0) : Type 0 where
  pub to_string : Line Value → Result String String
  pub from_str : String → Result (Line Value) String
  pub digest : String → List ℕ
  pub display : Uuid → String

abbrev hex_digits : List String
hex_digits =
    "0" ∷ "1" ∷ "2" ∷ "3" ∷ "4" ∷ "5" ∷ "6" ∷ "7" ∷ "8" ∷ "9" ∷ "a" ∷ "b" ∷ "c" ∷ "d" ∷ "e" ∷ "f"
    ∷ []

abbrev hex_digit : ℕ → String
hex_digit n = elim (get_elem? hex_digits n) [ none ↦ "" | some d ↦ d ]

-- `write!(hex, "{byte:02x}")` for each byte
unfoldable pub hex : List ℕ → String
hex [] = ""
hex (byte ∷ bytes) =
    String.◌++◌ (String.◌++◌ (hex_digit (byte / 16)) (hex_digit (byte % 16))) (hex bytes)

-- the event lines and the newline at their end
abbrev pub payload_of : List String → String
payload_of event_lines = String.◌++◌ (join event_lines) "\n"

module _ {Value : Type 0} (codec : Codec Value) where
  abbrev pub content_hash : String → String
  content_hash payload = hex (codec.digest payload)

  unfoldable pub split_header_payload :
      (path contents : String) → Result (String × String) FsEventStoreError
  split_header_payload path contents = elim (split_line contents) [
    | none ↦ err (corrupted path "missing header line")
    | some parts ↦ ok parts
  ]

  unfoldable pub parse_header : (path line : String) → Result TransactionHeader FsEventStoreError
  parse_header path line = elim (codec.from_str line) [
    | ok (header_line header) ↦ ok header
    | ok (event_line _) ↦ err (corrupted path "first line is not a header")
    | err error ↦ err (corrupted path (String.◌++◌ "invalid header line: " error))
  ]

  -- one line of the payload
  unfoldable pub parse_event : (path line : String) → Result (EventEnvelope Value) FsEventStoreError
  parse_event path line = elim (codec.from_str line) [
    | ok (event_line event) ↦ ok event
    | ok (header_line _) ↦ err (corrupted path "unexpected header record among events")
    | err error ↦ err (corrupted path (String.◌++◌ "invalid line: " error))
  ]

  -- The loop over the lines; `events` is the vector that it fills.
  unfoldable pub parse_lines :
      String
      → List (EventEnvelope Value)
      → List String
      → Result (List (EventEnvelope Value)) FsEventStoreError
  parse_lines path events [] = ok events
  parse_lines path events (line ∷ rest) =
      let skipped = parse_lines path events rest in
      let read = parse_event path line >>= λ event. parse_lines path (events ++ event ∷ []) rest in
      if is_blank line then skipped else read

  unfoldable pub parse_events :
      (path payload : String) → Result (List (EventEnvelope Value)) FsEventStoreError
  unfolding parse_lines
  parse_events path payload = parse_lines path [] (lines payload)

  -- the test of the anchor, for a file that has one: the message of a mismatch
  unfoldable pub mismatch : Option String → String → Option String
  mismatch none payload = none
  mismatch (some expected) payload =
      if content_hash payload == expected
      then none
      else some (
          String.◌++◌ "content hash mismatch: header anchor "
            (String.◌++◌ expected (String.◌++◌ " != computed " (content_hash payload))))

  -- `read` is what `fs::read_to_string` returned.
  unfoldable pub load_transaction :
      String → Result String String → Result (LoadedTransaction Value) FsEventStoreError
  load_transaction path read =
      map_err (λ error. corrupted path (String.◌++◌ "read failed: " error)) read >>= λ contents.
      split_header_payload path contents >>= λ (line, payload). parse_header path line >>= λ header.
      elim (mismatch header.content_hash payload) [
        | some detail ↦ ok (integrity header.transaction_id detail)
        | none ↦ parse_events path payload >>= λ events. ok (valid header events)
      ]

  unfoldable pub parse_transaction :
      String
      → Result String String
      → Result (TransactionHeader × List (EventEnvelope Value)) FsEventStoreError
  parse_transaction path read = load_transaction path read >>= λ loaded. elim loaded [
    | valid header events ↦ ok (header, events)
    | integrity transaction_id detail ↦ err (
        corrupted path (
          String.◌++◌ "integrity failure for "
            (String.◌++◌ (codec.display transaction_id) (String.◌++◌ ": " detail))))
  ]

  unfoldable pub serialize_line : Line Value → Result String EventStoreError
  serialize_line line = map_err (λ _. store_failure append_events) (codec.to_string line)

  unfoldable pub serialize_events :
      List (EventEnvelope Value) → Result (List String) EventStoreError
  serialize_events [] = ok []
  serialize_events (event ∷ events) = serialize_line (event_line event) >>= λ line.
      serialize_events events >>= λ rest. ok (line ∷ rest)

  unfoldable pub serialize_transaction :
      TransactionHeader → List (EventEnvelope Value) → Result String EventStoreError
  serialize_transaction header events = serialize_events events >>= λ event_lines.
      serialize_line (
        header_line (record header { content_hash = some (content_hash (payload_of event_lines)) }))
      >>= λ line. ok (String.◌++◌ line (String.◌++◌ "\n" (payload_of event_lines)))
