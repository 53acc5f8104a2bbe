-- ===== src/FileStore/Ingestion/Persistence.antt =====
-- The ingestion log in memory and the file that it is written to stay in step.
use Prim.Native.Nat.{max}
use Prim.Native.String
use mathlib.Core.Path.{ap₂}
use text.Mathlib.TextLemmas as Text
use eventcore.Prelude.{
  ℕ, suc, ◌+◌, ◌%◌, ◌<◌, ◌≡◌, refl, sym, ap, ◌∙◌, String, List, [], ◌∷◌, ◌++◌, true, false, ok,
  >>=-eq-ok, All, arith, length, inl, inr, Bool-cases, Result-cases, Result-cases,
}
use eventcore.Prelude.UuidMap
use eventcore.Prelude.UuidMap.{Uuid, UuidMap}
use eventcore.FileStore.Format.Lines.{lines, is_blank}
use eventcore.FileStore.Format.Plain.{is_plain, text_of, lines-text_of, text_of-append}
use eventcore.FileStore.Ingestion.{
  LogEntry, IngestionLog, LogCodec, parse_entry, serialize_entry, contents, u64_mod, allocate,
  load_lines, load, body_of, persist,
}

-- What is documented of serde_json, at the entries of the log.
pub record LogCodecLaws (codec : LogCodec) : Type 0 where
  pub reads_back :
      (entry : LogEntry) (s : String) → codec.to_string entry ≡ ok s → codec.from_str s ≡ ok entry
  pub escaped : (entry : LogEntry) (s : String) → codec.to_string entry ≡ ok s → is_plain s ≡ true
  pub not_blank :
      (entry : LogEntry) (s : String) → codec.to_string entry ≡ ok s → is_blank s ≡ false

-- the numbers that a batch of events is given, as the loops of the store give them
unfoldable pub allocate_all : List Uuid → IngestionLog → List (Uuid × ℕ) × IngestionLog
allocate_all [] log = ([], log)
allocate_all (id ∷ ids) log =
    let (seq, next) = allocate id log in
    let (entries, last) = allocate_all ids next in ((id, seq) ∷ entries, last)

All-append {ℓ} :
    (P : String → Type ℓ) (xs ys : List String) → All P xs → All P ys → All P (xs ++ ys)
All-append P [] ys h g = g
All-append P (x ∷ xs) ys h g = (h.0, All-append P xs ys h.1 g)

allocate_next :
    (id : Uuid) (log : IngestionLog)
    → log.next_seq + 1 < u64_mod
    → (allocate id log).1.next_seq ≡ suc log.next_seq
unfolding allocate
allocate_next id log h = omega arith

module _ (codec : LogCodec) (path : String) where
  load_lines_blank :
      (l : String) (rest : List String) (m : UuidMap ℕ) (x : ℕ)
      → is_blank l ≡ true
      → load_lines codec path (l ∷ rest) m x ≡ load_lines codec path rest m x
  unfolding load_lines
  load_lines_blank l rest m x b = simp b

  load_lines_entry :
      (l : String) (entry : LogEntry) (rest : List String) (m : UuidMap ℕ) (x : ℕ)
      → is_blank l ≡ false
      → parse_entry codec path l ≡ ok entry
      → load_lines codec path (l ∷ rest) m x
        ≡ load_lines codec path rest (UuidMap.insert entry.event_id entry.seq m) (max x entry.seq)
  unfolding load_lines
  load_lines_entry l entry rest m x b e = simp (b, e)

  load_lines_inv :
      (l : String) (rest : List String) (m n : UuidMap ℕ) (x y : ℕ)
      → is_blank l ≡ false
      → load_lines codec path (l ∷ rest) m x ≡ ok (n, y)
      → (entry : LogEntry) × (parse_entry codec path l ≡ ok entry)
        × (load_lines codec path rest (UuidMap.insert entry.event_id entry.seq m) (max x entry.seq)
            ≡ ok (n, y))
  unfolding load_lines
  load_lines_inv l rest m n x y b h = >>=-eq-ok (parse_entry codec path l) _ (rw b at h)

  load_lines-append :
      (ls ms : List String) (m n : UuidMap ℕ) (x y : ℕ)
      → load_lines codec path ls m x ≡ ok (n, y)
      → load_lines codec path (ls ++ ms) m x ≡ load_lines codec path ms n y
  load_lines-append [] ms m n x y h =
      let maps : m ≡ n = unfold load_lines in cc in
      let tops : x ≡ y = unfold load_lines in cc in ap₂ (load_lines codec path ms) maps tops
  load_lines-append (l ∷ ls) ms m n x y h = elim (Bool-cases (is_blank l)) [
    | inl blank ↦
        load_lines_blank l (ls ++ ms) m x blank
        ∙ load_lines-append ls ms m n x y (sym (load_lines_blank l ls m x blank) ∙ h)
    | inr full ↦
        let (entry, e, rest) = load_lines_inv l ls m n x y full h in
        load_lines_entry l entry (ls ++ ms) m x full e
        ∙ load_lines-append ls ms (UuidMap.insert entry.event_id entry.seq m) n (max x entry.seq) y
            rest
  ]

  -- The file holds one line for each number that was given, and loading it gives the log.
  pub record IsWrittenAs (log : IngestionLog) (text : String) : Type 0 where
    pub entry_lines : List String
    pub max_seq : ℕ
    pub spelled : text ≡ text_of entry_lines
    pub plain : All (λ s. is_plain s ≡ true) entry_lines
    pub loaded : load_lines codec path entry_lines [] 0 ≡ ok (log.seq_by_event, max_seq)
    pub next : log.next_seq ≡ suc max_seq
    pub in_range : log.next_seq < u64_mod

  pub load_written :
      (log : IngestionLog) (text : String)
      → IsWrittenAs log text
      → load codec path (contents text) ≡ ok log
  unfolding load
  load_written log text h =
      let text_lines : lines text ≡ h.entry_lines =
        ap lines h.spelled ∙ lines-text_of h.entry_lines h.plain in
      let wrap : (h.max_seq + 1) % u64_mod ≡ log.next_seq = omega (arith, h.next, h.in_range) in
      simp (text_lines, h.loaded, wrap)

  module _ (laws : LogCodecLaws codec) where
    serialize_entry_inv :
        (entry : LogEntry) (line : String)
        → serialize_entry codec path entry ≡ ok line
        → codec.to_string entry ≡ ok line
    unfolding serialize_entry
    serialize_entry_inv entry line h = ground arith

    body_of_inv :
        (id : Uuid) (seq : ℕ) (entries : List (Uuid × ℕ)) (body : String)
        → body_of codec path ((id, seq) ∷ entries) ≡ ok body
        → (line rest : String) × (codec.to_string (record { event_id = id; seq = seq }) ≡ ok line)
          × (body_of codec path entries ≡ ok rest)
          × (body ≡ String.◌++◌ line (String.◌++◌ "\n" rest))
    unfolding body_of
    body_of_inv id seq entries body h =
        let (line, e, h') =
          >>=-eq-ok (serialize_entry codec path (record { event_id = id; seq = seq })) _ h in
        let (rest, e', h'') = >>=-eq-ok (body_of codec path entries) _ h' in
        (line, rest, serialize_entry_inv (record { event_id = id; seq = seq }) line e, e', cc)

    parse_entry_written :
        (entry : LogEntry) (line : String)
        → codec.to_string entry ≡ ok line
        → parse_entry codec path line ≡ ok entry
    unfolding parse_entry
    parse_entry_written entry line h = simp (laws.reads_back entry line h)

    -- what the lines of a batch are, and what loading them adds to the log
    record Added (ids : List Uuid) (log : IngestionLog) (top : ℕ) (body : String) : Type 0 where
      added : List String
      new_top : ℕ
      spelled : body ≡ text_of added
      plain : All (λ s. is_plain s ≡ true) added
      loaded :
          load_lines codec path added log.seq_by_event top
          ≡ ok ((allocate_all ids log).1.seq_by_event, new_top)
      next : (allocate_all ids log).1.next_seq ≡ suc new_top
      in_range : (allocate_all ids log).1.next_seq < u64_mod

    body_of-Added :
        (ids : List Uuid) (log : IngestionLog) (body : String) (top : ℕ)
        → log.next_seq ≡ suc top
        → log.next_seq + length ids < u64_mod
        → body_of codec path (allocate_all ids log).0 ≡ ok body
        → Added ids log top body
    unfolding allocate_all body_of load_lines text_of allocate
    body_of-Added [] log body top n fits b = record {
      added = [];
      new_top = top;
      spelled = cc;
      plain = tt;
      loaded = refl;
      next = n;
      in_range = omega arith;
    }
    body_of-Added (id ∷ ids) log body top n fits b =
        let entry : LogEntry = record { event_id = id; seq = log.next_seq } in
        let (line, rest, e, others, spell) =
          body_of_inv id log.next_seq (allocate_all ids (allocate id log).1).0 body b in
        let step = allocate_next id log (omega arith) in
        let more =
          body_of-Added ids (allocate id log).1 rest log.next_seq (step ∙ omega arith)
            (omega (arith, step)) others in
        record {
          added = line ∷ more.added;
          new_top = more.new_top;
          spelled = spell ∙ ap (λ t. String.◌++◌ line (String.◌++◌ "\n" t)) more.spelled;
          plain = (laws.escaped entry line e, more.plain);
          loaded =
              load_lines_entry line entry more.added log.seq_by_event top
                (laws.not_blank entry line e) (parse_entry_written entry line e)
              ∙ ap
                  (load_lines codec path more.added
                    (UuidMap.insert id log.next_seq log.seq_by_event))
                  (omega arith)
              ∙ more.loaded;
          next = more.next;
          in_range = more.in_range;
        }

    persist_ok :
        (partial : String) (entries : List (Uuid × ℕ)) (text text' : String)
        → persist codec path (ok tt) (ok tt) partial entries text ≡ (ok tt, text')
        → (body : String) × (body_of codec path entries ≡ ok body) × (text' ≡ String.◌++◌ text body)
    unfolding persist
    persist_ok partial [] text text' h =
        let kept : text ≡ text' = cc in
        ("", unfold body_of in refl, sym kept ∙ sym (Text.append-nil text))
    persist_ok partial (entry ∷ entries) text text' h =
        elim (Result-cases (body_of codec path (entry ∷ entries))) [
          | inl (body, e) ↦ (body, e, ground arith)
          | inr (error, e) ↦ absurd (ground arith)
        ]

    -- After a batch of events has been given its numbers and these have been persisted, loading the
    -- file gives exactly the log in memory, if it did so before and the numbers stay in range.
    pub persist-load :
        (partial : String) (ids : List Uuid) (log : IngestionLog) (text text' : String)
        → IsWrittenAs log text
        → log.next_seq + length ids < u64_mod
        → persist codec path (ok tt) (ok tt) partial (allocate_all ids log).0 text ≡ (ok tt, text')
        → IsWrittenAs (allocate_all ids log).1 text'
          × (load codec path (contents text') ≡ ok (allocate_all ids log).1)
    persist-load partial ids log text text' h fits p =
        let (body, b, e) = persist_ok partial (allocate_all ids log).0 text text' p in
        let more = body_of-Added ids log body h.max_seq h.next fits b in
        let after : IsWrittenAs (allocate_all ids log).1 text' = record {
          entry_lines = h.entry_lines ++ more.added;
          max_seq = more.new_top;
          spelled =
              e
              ∙ ap₂ String.◌++◌ h.spelled more.spelled
              ∙ sym (text_of-append h.entry_lines more.added);
          plain = All-append (λ s. is_plain s ≡ true) h.entry_lines more.added h.plain more.plain;
          loaded =
              load_lines-append h.entry_lines more.added [] log.seq_by_event 0 h.max_seq h.loaded
              ∙ more.loaded;
          next = more.next;
          in_range = more.in_range;
        } in
        (after, load_written (allocate_all ids log).1 text' after)
