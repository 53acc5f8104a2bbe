-- ===== src/Types/Event.antt =====
-- The trait `Event` of eventcore-types/src/command.rs, with the parts of serde_json and of
-- `std::any` that the stores call on it.
use eventcore.Prelude.{String, Result, Option}
use eventcore.Types.Error.{StreamId}

-- `Any` is the type of boxed, type-erased events, and `E` an event type of the application.
-- `to_raw_value` and `from_str` are serde_json's, at `E`; its error is a message.
pub record Event (Any E : Type 0) : Type 0 where
  pub stream_id : E → StreamId
  pub event_type_name : String
  pub to_raw_value : E → Result String String
  pub from_str : String → Option E
  pub boxed : E → Any
  pub downcast_ref : Any → Option E
  pub type_name : String
