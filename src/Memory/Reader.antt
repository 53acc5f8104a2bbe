-- ===== src/Memory/Reader.antt =====
-- `EventReader for InMemoryEventStore` of eventcore-memory/src/lib.rs.
use text.Mathlib.Text.{starts_with}
use eventcore.Prelude.{
  ℕ, zero, suc, String, List, [], ◌∷◌, ◌++◌, take, filter_by, Bool, true, false, Option, none, some,
  Result, ok, err, ltb, ◌==◌, if◌then◌else◌,
}
use eventcore.Types.Error.{read_stream, EventStoreError, store_failure}
use eventcore.Types.Event.{Event}
use eventcore.Types.Query.{StreamPosition, EventPage, EventFilter, next_from_results}
use eventcore.Memory.Store.{GlobalLogEntry, InMemoryEventStore}

-- The tests of the four filters on an entry.
unfoldable pub is_after : Option StreamPosition → GlobalLogEntry → Bool
is_after none entry = true
is_after (some position) entry = ltb position entry.event_id

unfoldable pub has_prefix : EventFilter → GlobalLogEntry → Bool
has_prefix filter entry = elim filter.stream_prefix [
  | none ↦ true
  | some prefix ↦ starts_with entry.stream_id prefix
]

module _ (glob : String → Option (String → Bool)) where
  -- `StreamPattern::matches`. `glob` compiles a pattern, as `glob::Pattern::new` does.
  unfoldable pub matches : String → String → Bool
  matches pattern stream_id = elim (glob pattern) [ some fits ↦ fits stream_id | none ↦ false ]

  unfoldable pub fits_pattern : EventFilter → GlobalLogEntry → Bool
  fits_pattern filter entry = elim filter.stream_pattern [
    | none ↦ true
    | some pattern ↦ matches pattern entry.stream_id
  ]

unfoldable pub has_type : String → EventFilter → GlobalLogEntry → Bool
has_type event_type_name filter entry = elim filter.event_type [
  | none ↦ entry.event_type == event_type_name
  | some event_type ↦ entry.event_type == event_type
]

module _ {Any E : Type 0} (ev : Event Any E) (glob : String → Option (String → Bool)) where
  -- The entries that the filter lets through, and those of them after a position.
  unfoldable pub selected : EventFilter → List GlobalLogEntry → List GlobalLogEntry
  selected filter log =
      filter_by (has_type ev.event_type_name filter)
        (filter_by (fits_pattern glob filter) (filter_by (has_prefix filter) log))

  -- The closure of `filter_map`: an entry that cannot be read as an `E` is left out.
  unfoldable pub read_entries : List GlobalLogEntry → List (E × StreamPosition)
  read_entries [] = []
  read_entries (entry ∷ entries) =
      let rest = read_entries entries in
      elim (ev.from_str entry.event_data) [
        | some event ↦ (event, entry.event_id) ∷ rest
        | none ↦ rest
      ]

  unfoldable pub read_page :
      EventFilter → EventPage → List GlobalLogEntry → List (E × StreamPosition)
  read_page filter page log =
      read_entries
        (take page.limit (selected filter (filter_by (is_after page.after_position) log)))

  unfoldable pub read_events :
      {Value : Type 0}
      → EventFilter
      → EventPage
      → InMemoryEventStore Any Value
      → Result (List (E × StreamPosition)) EventStoreError
  read_events filter page store =
      if store.poisoned
      then err (store_failure read_stream)
      else ok (read_page filter page store.global_log)

  -- A client that reads page after page, as the documentation of `EventPage` shows, until a page is
  -- empty, on fuel.
  unfoldable pub read_all :
      ℕ → EventFilter → EventPage → List GlobalLogEntry → List (E × StreamPosition)
  read_all zero filter page log = []
  read_all (suc fuel) filter page log =
      let events = read_page filter page log in
      elim (next_from_results page events) [
        | none ↦ []
        | some next ↦ events ++ read_all fuel filter next log
      ]
