-- ===== src/Tests/Types.antt =====
-- Batches, declarations and snapshots.
use eventcore.Prelude.{ℕ, ◌≡◌, ◌≢◌, refl, ◌↔◌, String, List, [], ◌∷◌, true, false, ok, err}
use eventcore.Prelude.HashMap.{HashMap, lookup, all, IsMap}
use eventcore.Prelude.HashSet.{contains}
use eventcore.Types.Error.{undeclared_stream}
use eventcore.Types.Declarations.{
  StreamDeclarations, duplicate_stream, try_from_streams, with_participant, Distinct,
  try_from_streams_iff, with_participant-eq,
}
use eventcore.Types.Writes.Build.{all_entries}
use eventcore.Types.Snapshot.{CommandStateSnapshot, covers, Covers, covers_iff}
use eventcore.Tests.Bank.{deposit}

abbrev versions : HashMap ℕ
versions = ("a", 2) ∷ ("b", 0) ∷ []

versions-IsMap : IsMap versions
unfolding lookup
versions-IsMap = (refl, (refl, tt))

-- The event for `c` is refused: no version was expected of it.
all_entries_refuses :
    all_entries deposit versions (("b", 1) ∷ ("c", 2) ∷ []) ≡ err (undeclared_stream "c")
unfolding all_entries lookup
all_entries_refuses = refl

try_from_streams_iff_example :
    (try_from_streams ("a" ∷ "b" ∷ []) ≡ ok (record { streams = "a" ∷ "b" ∷ [] })) ↔ (
      (◌≡◌ {A = List String} ("a" ∷ "b" ∷ []) ("a" ∷ "b" ∷ []))
      × (◌≢◌ {A = List String} ("a" ∷ "b" ∷ []) [])
      × Distinct ("a" ∷ "b" ∷ []))
try_from_streams_iff_example =
    try_from_streams_iff ("a" ∷ "b" ∷ []) (record { streams = "a" ∷ "b" ∷ [] })

abbrev declared : StreamDeclarations
declared = record { streams = "a" ∷ "b" ∷ [] }

declared-Distinct : Distinct declared.streams
unfolding contains
declared-Distinct = (refl, (refl, tt))

with_participant-eq_example : with_participant declared "a" ≡ err (duplicate_stream "a")
unfolding contains
with_participant-eq_example = with_participant-eq declared "a" declared-Distinct

abbrev old : CommandStateSnapshot ℕ
old = record { state = 5; stream_versions = versions; replay_checkpoints = [] }

abbrev recent : CommandStateSnapshot ℕ
recent = record { state = 9; stream_versions = ("b", 1) ∷ ("a", 2) ∷ []; replay_checkpoints = [] }

covers_iff_example : (covers recent old ≡ true) ↔ Covers recent.stream_versions old.stream_versions
covers_iff_example = covers_iff recent old versions-IsMap

recent-covers : (covers recent old ≡ true) × (covers old recent ≡ false)
unfolding covers all lookup
recent-covers = (refl, refl)
