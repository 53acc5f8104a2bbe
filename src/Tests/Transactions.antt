-- ===== src/Tests/Transactions.antt =====
-- A codec that knows two lines, a log with one number, and a store that is opened, written and opened
-- again.
use Prim.Native.String
use eventcore.Prelude.{
  ℕ, ◌≡◌, refl, ap, ◌∙◌, inl, inr, String, List, [], ◌∷◌, Bool, true, false, ◌&&◌, ◌==◌, Option,
  none, some, Result, ok, err, arith, eqb, if◌then◌else◌, Bool-cases,
}
use eventcore.FileStore.Ingestion.{
  LogEntry, IngestionLog, LogCodec, contents, allocate, load, persist, serialize_entry, body_of,
  load_lines,
}
use eventcore.FileStore.Ingestion.Persistence.{
  LogCodecLaws, allocate_all, IsWrittenAs, persist-load,
}
use eventcore.FileStore.Format.Lines.{is_blank}
use eventcore.FileStore.Format.Plain.{is_plain, text_of}
use eventcore.FileStore.Format.{
  TransactionHeader, EventEnvelope, Line, header_line, event_line, Codec, content_hash,
}
use eventcore.Tests.FileStore.{root}

-- A codec of log entries that knows the event 5 under the number 1.
abbrev known : LogEntry
known = record { event_id = 5; seq = 1 }

abbrev log_text_of : Bool → Result String String
log_text_of true = ok "{5:1}"
log_text_of false = err "unknown"

abbrev log_codec : LogCodec
log_codec = record {
  to_string = λ entry. log_text_of (eqb entry.event_id 5 && eqb entry.seq 1);
  from_str = λ _. ok known;
}

log_codec-known :
    (entry : LogEntry) (s : String)
    → log_codec.to_string entry ≡ ok s
    → (known ≡ entry) × (s ≡ "{5:1}")
log_codec-known entry s h = elim (Bool-cases (eqb entry.event_id 5 && eqb entry.seq 1)) [
  | inr other ↦ absurd (ground arith)
  | inl same ↦ (ground arith, ground arith)
]

log_codec-Laws : LogCodecLaws log_codec
unfolding is_plain is_blank
log_codec-Laws = record {
  reads_back = λ entry s h. ap ok (log_codec-known entry s h).0;
  escaped = λ entry s h. ap is_plain (log_codec-known entry s h).1 ∙ refl;
  not_blank = λ entry s h. ap is_blank (log_codec-known entry s h).1 ∙ refl;
}

abbrev empty_log : IngestionLog
empty_log = record { seq_by_event = []; next_seq = 1 }

empty_log-IsWrittenAs : IsWrittenAs log_codec "log" empty_log ""
unfolding load_lines text_of
empty_log-IsWrittenAs = record {
  entry_lines = [];
  max_seq = 0;
  spelled = refl;
  plain = tt;
  loaded = refl;
  next = refl;
  in_range = omega arith;
}

persist-load_example :
    IsWrittenAs log_codec "log" (allocate_all (5 ∷ []) empty_log).1 "{5:1}\n"
    × (load log_codec "log" (contents "{5:1}\n") ≡ ok (allocate_all (5 ∷ []) empty_log).1)
unfolding persist body_of serialize_entry allocate_all allocate
persist-load_example =
    persist-load log_codec "log" log_codec-Laws "" (5 ∷ []) empty_log "" "{5:1}\n"
      empty_log-IsWrittenAs (omega arith) refl

-- A codec that knows a header with its anchor and one event.
abbrev anchored : TransactionHeader
anchored = record root { stream_bases = []; content_hash = some "02" }

abbrev event : EventEnvelope ℕ
event = record {
  event_id = 5;
  stream_id = "a";
  stream_version = 1;
  event_type = "deposited";
  event_data = 10;
  metadata = 0;
}

abbrev pub is_nil : {A : Type 0} → List A → Bool
is_nil [] = true
is_nil (_ ∷ _) = false

pub is_nil_iff : {A : Type 0} (xs : List A) → is_nil xs ≡ true → xs ≡ []
is_nil_iff [] h = refl
is_nil_iff (x ∷ xs) h = absurd (cc)

abbrev is_hash : Option String → Bool
is_hash none = false
is_hash (some hash) = hash == "02"

abbrev is_anchored : TransactionHeader → Bool
is_anchored h =
    eqb h.format_version 2
    && (eqb h.transaction_id 1
        && (eqb h.replica_id 1
            && (is_nil h.parent_transaction_ids
                && (h.created_at == "2026-01-01T00:00:00Z"
                    && (is_nil h.stream_bases && is_hash h.content_hash)))))

pub both : (a b : Bool) → (a && b) ≡ true → (a ≡ true) × (b ≡ true)
both true b h = (refl, h)
both false b h = absurd (cc)

abbrev is_event : EventEnvelope ℕ → Bool
is_event e =
    eqb e.event_id 5
    && (e.stream_id == "a"
        && (eqb e.stream_version 1
            && (e.event_type == "deposited" && (eqb e.event_data 10 && eqb e.metadata 0))))

abbrev text_if : String → Bool → Result String String
text_if text true = ok text
text_if text false = err "unknown"

abbrev to_string : Line ℕ → Result String String
to_string (header_line h) = text_if "h" (is_anchored h)
to_string (event_line e) = text_if "e" (is_event e)

abbrev codec : Codec ℕ
codec = record {
  to_string = to_string;
  from_str = λ s. if s == "h" then ok (header_line anchored) else ok (event_line event);
  digest = λ s. String.len s ∷ [];
  display = λ _. "";
}
