-- ===== src/Types/Writes.antt =====
-- `StreamWrites` of eventcore-types/src/store.rs: a batch of events with the versions that it
-- expects, and `build_stream_writes_from_events` of eventcore/src/lib.rs, which fills one.
pub mod Build
use eventcore.Prelude.{
  ◌≡◌, String, List, [], ◌∷◌, ◌++◌, Bool, true, false, Option, none, some, Result, ok, err, ◌>>=◌,
  map_err, try_fold, eqb, if◌then◌else◌,
}
use eventcore.Prelude.HashMap
use eventcore.Prelude.HashMap.{HashMap, lookup, contains_key}
use eventcore.Types.Error.{
  StreamId, StreamVersion, EventStoreError, conflicting_expected_versions, undeclared_stream,
  serialization_failed, CommandError, event_store_error,
}
use eventcore.Types.Event.{Event}

pub record StreamWriteEntry (Any : Type 0) : Type 0 where
  pub stream_id : StreamId
  pub event : Any
  pub event_type : String
  pub event_data : String

pub record StreamWrites (Any : Type 0) : Type 0 where
  pub entries : List (StreamWriteEntry Any)
  pub expected_versions : HashMap StreamVersion

module _ {Any : Type 0} where
  -- `StreamWrites::new`
  abbrev pub empty : StreamWrites Any
  empty = record { entries = []; expected_versions = [] }

  unfoldable pub register_stream :
      StreamWrites Any → StreamId → StreamVersion → Result (StreamWrites Any) EventStoreError
  register_stream writes stream_id expected_version =
      elim (lookup stream_id writes.expected_versions) [
        | none ↦ ok (record writes {
          expected_versions = HashMap.insert stream_id expected_version writes.expected_versions;
        })
        | some first_version ↦
            if eqb first_version expected_version
            then ok writes
            else err (conflicting_expected_versions stream_id first_version expected_version)
      ]

module _ {Any E : Type 0} (ev : Event Any E) where
  -- the entry that an event becomes, once it is serialized
  abbrev pub entry_of : E → String → StreamWriteEntry Any
  entry_of event event_data = record {
    stream_id = ev.stream_id event;
    event = ev.boxed event;
    event_type = ev.event_type_name;
    event_data = event_data;
  }

  unfoldable pub append : StreamWrites Any → E → Result (StreamWrites Any) EventStoreError
  append writes event =
      if contains_key (ev.stream_id event) writes.expected_versions
      then (map_err (serialization_failed (ev.stream_id event)) (ev.to_raw_value event)
          >>= λ event_data.
              ok (record writes { entries = writes.entries ++ entry_of event event_data ∷ [] }))
      else err (undeclared_stream (ev.stream_id event))

  unfoldable pub build_stream_writes_from_events :
      List E → HashMap StreamVersion → Result (StreamWrites Any) CommandError
  build_stream_writes_from_events events expected_versions = map_err event_store_error (
      try_fold (λ writes (stream_id, version). register_stream writes stream_id version) empty
        expected_versions
      >>= λ writes. try_fold append writes events)
