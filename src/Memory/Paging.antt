-- ===== src/Memory/Paging.antt =====
-- Reading the global log page after page.
use eventcore.Prelude.{
  ℕ, zero, suc, ◌≤◌, ◌≡◌, refl, sym, ap, ◌∙◌, subst, String, List, [], ◌∷◌, ◌++◌, take, drop,
  length, filter_by, last?, All, Bool, true, Option, some, arith, take-append-drop, filter_comm,
  Option-cases, inl, inr,
}
use eventcore.Types.Event.{Event}
use eventcore.Types.Query.{StreamPosition, EventPage, EventFilter, next_from_results}
use eventcore.Memory.Store.{GlobalLogEntry, StoreData}
use eventcore.Memory.Invariant.{Ascending, IsValid}
use eventcore.Memory.Reader.{
  is_after, has_prefix, fits_pattern, has_type, selected, read_entries, read_page, read_all,
}
use eventcore.Memory.Selection.{
  filter-All, filter-Ascending, last-All, some_inj, after_page, after_later, filter-length,
  filter_sound, last-none, last-drop, take-All, take_nil, empty_of_length,
}

module _ {Any E : Type 0} (ev : Event Any E) (glob : String → Option (String → Bool)) where
  -- Every entry of the list can be read as an `E`.
  abbrev pub Readable : List GlobalLogEntry → Type 0
  Readable gs = All (λ (g : GlobalLogEntry). (e : E) × (ev.from_str g.event_data ≡ some e)) gs

  read_entries-append :
      (xs ys : List GlobalLogEntry)
      → read_entries ev glob (xs ++ ys) ≡ read_entries ev glob xs ++ read_entries ev glob ys
  unfolding read_entries
  read_entries-append [] ys = refl
  read_entries-append (x ∷ xs) ys = ground (arith, read_entries-append xs ys)

  read_entries-cons :
      (g : GlobalLogEntry) (gs : List GlobalLogEntry) (e : E)
      → ev.from_str g.event_data ≡ some e
      → read_entries ev glob (g ∷ gs) ≡ (e, g.event_id) ∷ read_entries ev glob gs
  unfolding read_entries
  read_entries-cons g gs e h = ground arith

  last-read :
      (gs : List GlobalLogEntry) (x : GlobalLogEntry)
      → Readable gs
      → last? gs ≡ some x
      → (e : E) × (last? (read_entries ev glob gs) ≡ some (e, x.event_id))
  unfolding read_entries
  last-read [] x r h = absurd (cc)
  last-read (g ∷ []) x r h =
      let (e, p) = r.0 in
      (
        e,
        ap last? (read_entries-cons g [] e p)
            ∙ ap (λ (y : GlobalLogEntry). some (e, y.event_id)) (some_inj g x h),
      )
  last-read (g ∷ k ∷ gs) x r h =
      let (e, p) = r.0 in
      let (d, q) = r.1.0 in
      let (z, found) = last-read (k ∷ gs) x r.1 h in
      (
        z,
        ap last? (
              read_entries-cons g (k ∷ gs) e p
              ∙ ap (λ zs. (e, g.event_id) ∷ zs) (read_entries-cons k gs d q))
            ∙ (ap last? (sym (read_entries-cons k gs d q)) ∙ found),
      )

  selected-after :
      (filter : EventFilter) (p : Option StreamPosition) (log : List GlobalLogEntry)
      → selected ev glob filter (filter_by (is_after p) log)
        ≡ filter_by (is_after p) (selected ev glob filter log)
  unfolding selected
  selected-after filter p log =
      let h1 = filter_comm (has_prefix filter) (is_after p) log in
      let h2 =
        filter_comm (fits_pattern glob filter) (is_after p) (filter_by (has_prefix filter) log) in
      let h3 =
        filter_comm (has_type ev.event_type_name filter) (is_after p)
          (filter_by (fits_pattern glob filter) (filter_by (has_prefix filter) log)) in
      cc

  selected-Ascending :
      (filter : EventFilter) (log : List GlobalLogEntry) (b : ℕ)
      → Ascending log b
      → Ascending (selected ev glob filter log) b
  unfolding selected
  selected-Ascending filter log b h =
      let one = filter_by (has_prefix filter) log in
      let two = filter_by (fits_pattern glob filter) one in
      filter-Ascending (has_type ev.event_type_name filter) two b (
        filter-Ascending (fits_pattern glob filter) one b
          (filter-Ascending (has_prefix filter) log b h))

  -- No more is selected than there is.
  selected-length :
      (filter : EventFilter) (log : List GlobalLogEntry)
      → length (selected ev glob filter log) ≤ length log
  unfolding selected
  selected-length filter log =
      let one = filter_by (has_prefix filter) log in
      let two = filter_by (fits_pattern glob filter) one in
      omega (
        arith,
        filter-length (has_prefix filter) log,
        filter-length (fits_pattern glob filter) one,
        filter-length (has_type ev.event_type_name filter) two,
      )

  read_page-eq :
      (filter : EventFilter) (page : EventPage) (log : List GlobalLogEntry)
      → read_page ev glob filter page log
        ≡ read_entries ev glob (
            take page.limit
              (filter_by (is_after page.after_position) (selected ev glob filter log)))
  unfolding read_page
  read_page-eq filter page log = rw (selected-after filter page.after_position log)

  read_all-none :
      (fuel : ℕ) (filter : EventFilter) (page : EventPage) (log : List GlobalLogEntry)
      → read_page ev glob filter page log ≡ []
      → read_all ev glob (suc fuel) filter page log ≡ []
  unfolding read_all next_from_results
  read_all-none fuel filter page log h = rw (read_all, next_from_results, h)

  read_all-some :
      (fuel : ℕ) (filter : EventFilter) (page : EventPage) (log : List GlobalLogEntry) (e : E)
      (q : StreamPosition)
      → last? (read_page ev glob filter page log) ≡ some (e, q)
      → read_all ev glob (suc fuel) filter page log
        ≡ read_page ev glob filter page log
          ++ read_all ev glob fuel filter (record page { after_position = some q }) log
  unfolding read_all next_from_results
  read_all-some fuel filter page log e q h = rw (read_all, next_from_results, h)

  module _ (filter : EventFilter) (limit : ℕ) (log : List GlobalLogEntry) (positive : 1 ≤ limit)
      (bound : ℕ) (ascending : Ascending (selected ev glob filter log) bound)
      (readable : Readable (selected ev glob filter log)) where
    -- What is left to read after a position.
    abbrev remaining : Option StreamPosition → List GlobalLogEntry
    remaining p = filter_by (is_after p) (selected ev glob filter log)

    abbrev page_at : Option StreamPosition → EventPage
    page_at p = record { after_position = p; limit = limit }

    remaining-Readable : (p : Option StreamPosition) → Readable (remaining p)
    remaining-Readable p =
        filter-All (λ (g : GlobalLogEntry). (e : E) × (ev.from_str g.event_data ≡ some e))
          (is_after p) (selected ev glob filter log) readable

    remaining-next :
        (p : Option StreamPosition) (x : GlobalLogEntry)
        → last? (take limit (remaining p)) ≡ some x
        → remaining (some x.event_id) ≡ drop limit (remaining p)
    remaining-next p x h =
        after_later p x (selected ev glob filter log) (
          last-All (λ g. is_after p g ≡ true) limit (remaining p) x
            (filter_sound (is_after p) (selected ev glob filter log)) h)
        ∙ after_page limit (remaining p) x bound
            (filter-Ascending (is_after p) (selected ev glob filter log) bound ascending) h

    read_all-empty :
        (fuel : ℕ) (p : Option StreamPosition)
        → remaining p ≡ []
        → read_all ev glob fuel filter (page_at p) log ≡ read_entries ev glob (remaining p)
    unfolding read_all read_entries
    read_all-empty zero p h = sym (ap (read_entries ev glob) h)
    read_all-empty (suc fuel) p h =
        read_all-none fuel filter (page_at p) log (
          read_page-eq filter (page_at p) log
          ∙ ap (read_entries ev glob) (ap (take limit) h ∙ take_nil limit))
        ∙ sym (ap (read_entries ev glob) h)

    -- A page and what is left after it are what was left before it.
    page_rest :
        (p : Option StreamPosition)
        → read_entries ev glob (take limit (remaining p))
            ++ read_entries ev glob (drop limit (remaining p))
          ≡ read_entries ev glob (remaining p)
    page_rest p =
        sym (read_entries-append (take limit (remaining p)) (drop limit (remaining p)))
        ∙ ap (read_entries ev glob) (take-append-drop limit (remaining p))

    read_all-remaining :
        (fuel : ℕ) (p : Option StreamPosition)
        → length (remaining p) ≤ fuel
        → read_all ev glob fuel filter (page_at p) log ≡ read_entries ev glob (remaining p)
    read_all-remaining zero p l = read_all-empty zero p (empty_of_length (remaining p) l)
    read_all-remaining (suc fuel) p l = elim (Option-cases (last? (take limit (remaining p)))) [
      | inl none_left ↦
          read_all-empty (suc fuel) p (last-none limit (remaining p) positive none_left)
      | inr (x, found) ↦
          let page = read_page-eq filter (page_at p) log in
          let (e, last) =
            last-read (take limit (remaining p)) x
              (take-All (λ (g : GlobalLogEntry). (e : E) × (ev.from_str g.event_data ≡ some e))
                limit (remaining p) (remaining-Readable p))
              found in
          let next = remaining-next p x found in
          let shorter = last-drop limit (remaining p) x found in
          let later =
            read_all-remaining fuel (some x.event_id)
              (subst (λ gs. length gs ≤ fuel) (sym next) (omega arith)) in
          read_all-some fuel filter (page_at p) log e x.event_id (ap last? page ∙ last)
          ∙ (ap (λ xs. xs ++ read_all ev glob fuel filter (page_at (some x.event_id)) log) page
              ∙ (ap (λ ys. read_entries ev glob (take limit (remaining p)) ++ ys)
                    (later ∙ ap (read_entries ev glob) next)
                  ∙ page_rest p))
    ]

  -- Reading page after page, from any position and with any page size but 0, yields each event that
  -- the filter lets through after that position exactly once and in the order of the log, and
  -- needs no more pages than the log has entries: provided that the identifiers of the log ascend
  -- and each entry that the filter lets through can be read as an `E`.
  pub read_all-Complete :
      {Value : Type 0} (filter : EventFilter) (page : EventPage) (d : StoreData Any Value)
      (next_id fuel : ℕ)
      → 1 ≤ page.limit
      → IsValid next_id d
      → Readable (selected ev glob filter d.global_log)
      → length d.global_log ≤ fuel
      → read_all ev glob fuel filter page d.global_log
        ≡ read_entries ev glob
            (filter_by (is_after page.after_position) (selected ev glob filter d.global_log))
  read_all-Complete filter page d next_id fuel positive valid readable enough =
      read_all-remaining filter page.limit d.global_log positive next_id
        (selected-Ascending filter d.global_log next_id valid.ascending) readable fuel
        page.after_position
        (omega (
          arith,
          selected-length filter d.global_log,
          filter-length (is_after page.after_position) (selected ev glob filter d.global_log),
        ))
