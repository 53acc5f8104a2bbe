-- ===== src/Types/Query.antt =====
-- eventcore-types/src/projection.rs: pages, filters and the strategies of a projector.
use eventcore.Prelude.{ℕ, String, List, Option, none, some, last?}

-- A UUID of version 7, as the 128-bit number that its order compares.
abbrev pub StreamPosition : Type 0
StreamPosition = ℕ

pub record EventPage : Type 0 where
  pub after_position : Option StreamPosition
  pub limit : ℕ

unfoldable pub first : ℕ → EventPage
first limit = record { after_position = none; limit = limit }

unfoldable pub after : StreamPosition → ℕ → EventPage
after position limit = record { after_position = some position; limit = limit }

module _ {ℓ} {E : Type ℓ} where
  unfoldable pub next_from_results : EventPage → List (E × StreamPosition) → Option EventPage
  next_from_results page events = elim (last? events) [
    | none ↦ none
    | some last ↦ some (record page { after_position = some last.1 })
  ]

unfoldable pub next : EventPage → StreamPosition → EventPage
next page last_position = record page { after_position = some last_position }

pub record EventFilter : Type 0 where
  pub stream_prefix : Option String
  pub stream_pattern : Option String
  pub event_type : Option String

-- `EventFilter::all`
unfoldable pub all_events : EventFilter
all_events = record { stream_prefix = none; stream_pattern = none; event_type = none }

unfoldable pub prefix : String → EventFilter
prefix p = record { stream_prefix = some p; stream_pattern = none; event_type = none }

unfoldable pub pattern_filter : String → EventFilter
pattern_filter p = record { stream_prefix = none; stream_pattern = some p; event_type = none }

unfoldable pub with_event_type : EventFilter → String → EventFilter
with_event_type f event_type = record f { event_type = some event_type }

pub data FailureStrategy : Type 0 where
  fatal skip retry : FailureStrategy
