-- ===== src/Memory/Invariant.antt =====
-- The invariant of the in-memory store: versions count events, the global log has one entry for
-- each event, and its identifiers ascend.
use native.Mathlib.Nat.{add-zero, zero-add}
use eventcore.Prelude.{
  zero, ℕ, suc, ◌+◌, ◌%◌, ◌<◌, ◌≤◌, ◌≡◌, refl, sym, subst, ap, List, [], ◌∷◌, ◌++◌, Result, arith,
  ◌==◌, length, length-append, filter_by, Option-cases, inl, inr, All,
}
use eventcore.Prelude.HashMap.{lookup}
use eventcore.Types.Error.{StreamId, increment, usize_mod, EventStoreError}
use eventcore.Types.Writes.{StreamWriteEntry, StreamWrites}
use eventcore.Types.Query.{StreamPosition}
use eventcore.Memory.Store.{
  GlobalLogEntry, StoreData, new, events_of, version_of, write_entry, write_entries, append_data,
  first_conflict,
}
use eventcore.Memory.Append.{
  entries_for, events_of-write_entry, version_of-write_entry, append_data-none, append_data-some,
}

-- The entries of the log that belong to one stream.
abbrev pub log_of : StreamId → List GlobalLogEntry → List GlobalLogEntry
log_of k = filter_by (λ g. g.stream_id == k)

log_of-append :
    (k : StreamId) (xs ys : List GlobalLogEntry) → log_of k (xs ++ ys) ≡ log_of k xs ++ log_of k ys
log_of-append k [] ys = refl
log_of-append k (x ∷ xs) ys = ground (arith, log_of-append k xs ys)

-- Every identifier of the log is below the bound, and each is below those that follow it.
abbrev pub Ascending : List GlobalLogEntry → ℕ → Type 0
Ascending [] bound = Unit
Ascending (g ∷ gs) bound =
    All (λ (h : GlobalLogEntry). g.event_id < h.event_id) gs
    × (g.event_id < bound)
    × Ascending gs bound

All-last :
    (id : ℕ) (gs : List GlobalLogEntry) (x : GlobalLogEntry)
    → All (λ (h : GlobalLogEntry). id < h.event_id) gs
    → id < x.event_id
    → All (λ (h : GlobalLogEntry). id < h.event_id) (gs ++ x ∷ [])
All-last id [] x h l = (l, tt)
All-last id (g ∷ gs) x h l = (h.0, All-last id gs x h.1 l)

Ascending-last :
    (gs : List GlobalLogEntry) (x : GlobalLogEntry) (bound : ℕ)
    → Ascending gs x.event_id
    → x.event_id < bound
    → Ascending (gs ++ x ∷ []) bound
Ascending-last [] x bound h l = (tt, l, tt)
Ascending-last (g ∷ gs) x bound h l =
    (All-last g.event_id gs x h.0 h.1, omega arith, Ascending-last gs x bound h.2 l)

pub Ascending-weaken :
    (gs : List GlobalLogEntry) (a b : ℕ) → a ≤ b → Ascending gs a → Ascending gs b
Ascending-weaken [] a b l h = tt
Ascending-weaken (g ∷ gs) a b l h = (h.0, omega arith, Ascending-weaken gs a b l h.2)

-- The version of each stream counts its events.
abbrev pub Versioned : {Any Value : Type 0} → StoreData Any Value → Type 0
Versioned d = (k : StreamId) → version_of d k ≡ length (events_of d k) % usize_mod

-- `next_id` bounds the identifiers that the clock has given so far.
pub record IsValid {Any Value : Type 0} (next_id : ℕ) (d : StoreData Any Value) : Type 0 where
  pub versions : Versioned d
  pub counted : (k : StreamId) → length (log_of k d.global_log) ≡ length (events_of d k)
  pub ascending : Ascending d.global_log next_id

-- The clock of one call: its identifiers ascend.
abbrev pub Ticks : (ℕ → StreamPosition) → Type 0
Ticks now_v7 = (i : ℕ) → now_v7 i < now_v7 (suc i)

Ticks-mono : (now_v7 : ℕ → StreamPosition) (n : ℕ) → Ticks now_v7 → now_v7 0 ≤ now_v7 n
Ticks-mono now_v7 zero t = omega arith
Ticks-mono now_v7 (suc n) t = omega (arith, Ticks-mono now_v7 n t, t n)

module _ {Any Value : Type 0} where
  -- A new store meets the invariant.
  pub new-IsValid : (next_id : ℕ) → IsValid next_id (new {Any = Any} {Value = Value}).content
  unfolding lookup
  new-IsValid next_id = record { versions = λ k. refl; counted = λ k. refl; ascending = tt }

  counted-write_entry :
      (id : ℕ) (e : StreamWriteEntry Any) (d : StoreData Any Value) (k : StreamId)
      → length (log_of k (write_entry id e d).global_log)
        ≡ length (log_of k d.global_log) + length (entries_for k (e ∷ []))
  unfolding write_entry
  counted-write_entry id e d k =
      rw (log_of-append k d.global_log _) (rw length-append (ground arith))

  Ascending-write_entry :
      (id bound : ℕ) (e : StreamWriteEntry Any) (d : StoreData Any Value)
      → id < bound
      → Ascending d.global_log id
      → Ascending (write_entry id e d).global_log bound
  unfolding write_entry
  Ascending-write_entry id bound e d l h = Ascending-last d.global_log _ bound h l

  write_entry-Versioned :
      (id : ℕ) (e : StreamWriteEntry Any) (d : StoreData Any Value)
      → Versioned d
      → Versioned (write_entry id e d)
  unfolding increment
  write_entry-Versioned id e d h k = ground (
    arith,
    h k,
    version_of-write_entry id e d k,
    ap length (events_of-write_entry id e d k),
    length-append (events_of d k) (entries_for k (e ∷ [])),
  )

  write_entries-Versioned :
      (now_v7 : ℕ → StreamPosition) (i : ℕ) (es : List (StreamWriteEntry Any))
      (d : StoreData Any Value)
      → Versioned d
      → Versioned (write_entries now_v7 i es d)
  unfolding write_entries
  write_entries-Versioned now_v7 i [] d h = h
  write_entries-Versioned now_v7 i (e ∷ es) d h =
      write_entries-Versioned now_v7 (suc i) es (write_entry (now_v7 i) e d)
        (write_entry-Versioned (now_v7 i) e d h)

  pub append_data-Versioned :
      (now_v7 : ℕ → StreamPosition) (writes : StreamWrites Any) (d : StoreData Any Value)
      → Versioned d
      → Versioned (append_data now_v7 writes d).1
  append_data-Versioned now_v7 writes d h =
      elim (Option-cases (first_conflict d writes.expected_versions)) [
        | inl no_conflict ↦
            subst (λ (q : Result (Unit {0}) EventStoreError × StoreData Any Value). Versioned q.1)
              (sym (append_data-none now_v7 writes d no_conflict))
              (write_entries-Versioned now_v7 0 writes.entries d h)
        | inr (e, found) ↦
            subst (λ (q : Result (Unit {0}) EventStoreError × StoreData Any Value). Versioned q.1)
              (sym (append_data-some now_v7 writes d e found)) h
      ]

  write_entry-IsValid :
      (id bound : ℕ) (e : StreamWriteEntry Any) (d : StoreData Any Value)
      → id < bound
      → IsValid id d
      → IsValid bound (write_entry id e d)
  write_entry-IsValid id bound e d l h = record {
    versions = write_entry-Versioned id e d h.versions;
    counted = λ k. omega (
      arith,
      h.counted k,
      counted-write_entry id e d k,
      ap length (events_of-write_entry id e d k),
      length-append (events_of d k) (entries_for k (e ∷ [])),
    );
    ascending = Ascending-write_entry id bound e d l h.ascending;
  }

  write_entries-IsValid :
      (now_v7 : ℕ → StreamPosition) (i : ℕ) (es : List (StreamWriteEntry Any))
      (d : StoreData Any Value)
      → Ticks now_v7
      → IsValid (now_v7 i) d
      → IsValid (now_v7 (i + length es)) (write_entries now_v7 i es d)
  unfolding write_entries
  write_entries-IsValid now_v7 i [] d t h = rw add-zero h
  write_entries-IsValid now_v7 i (e ∷ es) d t h =
      let e : i + suc (length es) ≡ suc i + length es = omega arith in
      rw e (
        write_entries-IsValid now_v7 (suc i) es (write_entry (now_v7 i) _ d) t
          (write_entry-IsValid (now_v7 i) (now_v7 (suc i)) _ d (t i) h))

  IsValid-weaken : (a b : ℕ) (d : StoreData Any Value) → a ≤ b → IsValid a d → IsValid b d
  IsValid-weaken a b d l h = record {
    versions = h.versions;
    counted = h.counted;
    ascending = Ascending-weaken d.global_log a b l h.ascending;
  }

  -- An append keeps the invariant, whether it succeeds or not, under a clock whose identifiers
  -- ascend from where the log ends.
  pub append_data-IsValid :
      (now_v7 : ℕ → StreamPosition) (writes : StreamWrites Any) (d : StoreData Any Value)
      → Ticks now_v7
      → IsValid (now_v7 0) d
      → IsValid (now_v7 (length writes.entries)) (append_data now_v7 writes d).1
  append_data-IsValid now_v7 writes d t h =
      elim (Option-cases (first_conflict d writes.expected_versions)) [
        | inl no_conflict ↦
            rw (append_data-none now_v7 writes d no_conflict)
              (rw zero-add at (write_entries-IsValid now_v7 0 writes.entries d t h))
        | inr (e, found) ↦ rw (append_data-some now_v7 writes d e found) (
            IsValid-weaken (now_v7 0) (now_v7 (length writes.entries)) d
              (Ticks-mono now_v7 (length writes.entries) t) h)
      ]
