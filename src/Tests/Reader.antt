-- ===== src/Tests/Reader.antt =====
-- Reading the log of a bank page after page.
use eventcore.Prelude.{ℕ, ◌≡◌, refl, String, Bool, [], ◌∷◌, none, some, filter_by, Option, arith}
use eventcore.Prelude.HashMap.{lookup}
use eventcore.Types.Writes.{StreamWrites, entry_of}
use eventcore.Types.Query.{EventPage, EventFilter, next_from_results}
use eventcore.Memory.Store.{StoreData, append_data, first_conflict, write_entries, write_entry}
use eventcore.Memory.Invariant.{append_data-IsValid, new-IsValid}
use eventcore.Memory.Reader.{
  is_after, has_prefix, fits_pattern, has_type, selected, read_entries, read_page, read_all,
}
use eventcore.Memory.Paging.{Readable, read_all-Complete}
use eventcore.Tests.Bank.{Deposit, deposit, bank, clock}

abbrev three_deposits : StreamWrites Deposit
three_deposits = record {
  entries =
      entry_of deposit ("a", 7) "a"
      ∷ entry_of deposit ("b", 5) "b"
      ∷ entry_of deposit ("ab", 3) "ab"
      ∷ [];
  expected_versions = [];
}

abbrev logged : StoreData Deposit ℕ
logged = (append_data clock three_deposits bank.content).1

-- The streams whose names start with "a".
abbrev of_a : EventFilter
of_a = record { stream_prefix = some "a"; stream_pattern = none; event_type = none }

abbrev one_by_one : EventPage
one_by_one = record { after_position = none; limit = 1 }

abbrev no_glob : String → Option (String → Bool)
no_glob pattern = none

logged-Readable : Readable deposit no_glob (selected deposit no_glob of_a logged.global_log)
unfolding append_data first_conflict write_entries write_entry selected has_type has_prefix
    fits_pattern lookup
logged-Readable = ((("a", 0), refl), ((("ab", 0), refl), tt))

read_all-Complete_example :
    read_all deposit no_glob 3 of_a one_by_one logged.global_log
    ≡ read_entries deposit no_glob
        (filter_by (is_after none) (selected deposit no_glob of_a logged.global_log))
read_all-Complete_example =
    read_all-Complete deposit no_glob of_a one_by_one logged (clock 3) 3 (omega arith)
      (append_data-IsValid clock three_deposits bank.content (λ i. omega arith)
        (new-IsValid (clock 0)))
      logged-Readable
      (unfold append_data first_conflict write_entries write_entry lookup in (omega arith))

read_all_lem :
    read_all deposit no_glob 3 of_a one_by_one logged.global_log
    ≡ (("a", 0), 1) ∷ (("ab", 0), 3) ∷ []
unfolding append_data first_conflict write_entries write_entry selected has_type has_prefix
    fits_pattern lookup read_all read_page read_entries is_after next_from_results
read_all_lem = refl
