-- ===== src/Tests/Stores.antt =====
-- A store with one transaction, to which a batch with one event is appended.
use Prim.Native.String
use eventcore.Prelude.{ℕ, List, [], ◌∷◌, false, Result, ok, arith}
use eventcore.Prelude.UuidMap
use eventcore.Prelude.UuidMap.{lookup, contains, keys, values}
use eventcore.Types.Error.{EventStoreError}
use eventcore.Types.Writes.{StreamWrites, StreamWriteEntry}
use eventcore.FileStore.Format.{Codec, EventEnvelope, header_line}
use eventcore.FileStore.Topology.Depth.{IsDag}
use eventcore.FileStore.Ingestion.{IngestionLog, LogCodec}
use eventcore.FileStore.Index.{Index, Transaction, headers_of}
use eventcore.FileStore.Store.{FileEventStore, Surroundings, Json, append_events}
use eventcore.FileStore.Store.Mirror.{build_index-Mirrors}
use eventcore.Tests.FileStore.{root}

abbrev stored_event : EventEnvelope ℕ
stored_event = record {
  event_id = 5;
  stream_id = "a";
  stream_version = 1;
  event_type = "deposited";
  event_data = 10;
  metadata = 0;
}

abbrev transactions : List (Transaction ℕ)
transactions = (root, stored_event ∷ []) ∷ []

abbrev log : IngestionLog
log = record { seq_by_event = (5, 1) ∷ []; next_seq = 2 }

transactions-IsDag : IsDag (headers_of transactions []) (λ _. 0)
unfolding lookup contains headers_of UuidMap.insert
transactions-IsDag = record {
  bounded = λ id known. ground arith;
  falls = λ p id (header, found, there, known). ground arith;
}

abbrev opened : Index ℕ
opened = (build_index-Mirrors transactions log (λ _. 0) transactions-IsDag).0

abbrev store : FileEventStore ℕ
store = record {
  replica_id = 1;
  index = opened;
  poisoned = false;
  files = (1, "…") ∷ [];
  log_text = "…\n";
}

abbrev json : Json ℕ
json = record { parse = λ s. ok (String.len s); empty_object = 0 }

abbrev any_codec : Codec ℕ
any_codec = record {
  to_string = λ _. ok "{}";
  from_str = λ _. ok (header_line root);
  digest = λ _. [];
  display = λ _. "";
}

abbrev any_log_codec : LogCodec
any_log_codec = record {
  to_string = λ _. ok "{}";
  from_str = λ _. ok (record { event_id = 6; seq = 2 });
}

abbrev surroundings : Surroundings
surroundings = record {
  transaction_id = 2;
  event_ids = λ _. 6;
  created_at = "2026-01-01T00:00:00Z";
  file_written = ok tt;
  log_opened = ok tt;
  log_written = ok tt;
  log_partial = "";
}

abbrev new_entry : StreamWriteEntry (Unit {0})
new_entry = record { stream_id = "a"; event = tt; event_type = "deposited"; event_data = "12" }

abbrev batch : StreamWrites (Unit {0})
batch = record { entries = new_entry ∷ []; expected_versions = ("a", 1) ∷ [] }

abbrev appended : Result (Unit {0}) EventStoreError × FileEventStore ℕ
appended = append_events json any_codec any_log_codec "log" surroundings batch store
