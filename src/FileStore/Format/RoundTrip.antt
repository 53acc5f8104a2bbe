-- ===== src/FileStore/Format/RoundTrip.antt =====
-- What a transaction file is read back as: the same transaction, or an integrity failure.
use Prim.Native.String
use Prim.Native.String.append
use eventcore.Prelude.{◌≡◌, String, true, false, some, ok}
use eventcore.FileStore.Format.{TransactionHeader, Line, Codec, content_hash}
use eventcore.FileStore.Format.Plain.{is_plain}
use eventcore.FileStore.Format.Lines.{is_blank}

-- What is documented of serde_json: a line is read back as what was written, control characters are
-- escaped, and an object begins with a brace.
pub record CodecLaws {Value : Type 0} (codec : Codec Value) : Type 0 where
  pub reads_back :
      (line : Line Value) (s : String) → codec.to_string line ≡ ok s → codec.from_str s ≡ ok line
  pub escaped : (line : Line Value) (s : String) → codec.to_string line ≡ ok s → is_plain s ≡ true
  pub not_blank :
      (line : Line Value) (s : String) → codec.to_string line ≡ ok s → is_blank s ≡ false

module _ {Value : Type 0} (codec : Codec Value) (laws : CodecLaws codec) where
  open laws use {reads_back, escaped, not_blank}

  -- the header with its anchor
  abbrev pub signed : TransactionHeader → String → TransactionHeader
  signed header payload = record header { content_hash = some (content_hash codec payload) }
