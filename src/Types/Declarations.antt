-- ===== src/Types/Declarations.antt =====
-- `StreamDeclarations` of eventcore-types/src/command.rs: the streams that a command declares.
use eventcore.Prelude.{
  ◌≡◌, refl, ◌≢◌, List, [], ◌∷◌, ◌++◌, false, ◌||◌, Result, ok, err, ◌>>=◌, arith, if◌then◌else◌,
  eq_iff, append_assoc, append-nil, ◌↔◌, ap, ◌∙◌, subst, >>=-eq-ok, Bool-cases, inl, inr,
}
use eventcore.Prelude.HashSet.{HashSet, contains, insert}
use eventcore.Types.Error.{StreamId}

pub record StreamDeclarations : Type 0 where
  pub streams : List StreamId

pub data StreamDeclarationsError : Type 0 where
  no_streams : StreamDeclarationsError
  duplicate_stream : StreamId → StreamDeclarationsError

-- The loop of `try_from_streams`, over `seen` and `collected`.
collect_streams :
    HashSet → List StreamId → List StreamId → Result (List StreamId) StreamDeclarationsError
collect_streams seen collected [] = ok collected
collect_streams seen collected (stream ∷ streams) =
    let rest = collect_streams (insert stream seen) (collected ++ stream ∷ []) streams in
    if contains stream seen then err (duplicate_stream stream) else rest

not_empty : List StreamId → Result StreamDeclarations StreamDeclarationsError
not_empty [] = err no_streams
not_empty (s ∷ ss) = ok (record { streams = s ∷ ss })

unfoldable pub try_from_streams : List StreamId → Result StreamDeclarations StreamDeclarationsError
unfolding collect_streams not_empty
try_from_streams streams = collect_streams [] [] streams >>= not_empty

unfoldable pub single : StreamId → StreamDeclarations
single stream = record { streams = stream ∷ [] }

unfoldable pub with_participant :
    StreamDeclarations → StreamId → Result StreamDeclarations StreamDeclarationsError
with_participant d participant = try_from_streams (d.streams ++ participant ∷ [])

-- No stream stands twice.
abbrev pub Distinct : List StreamId → Type 0
Distinct [] = Unit
Distinct (s ∷ ss) = (contains s ss ≡ false) × Distinct ss

-- No stream of the list is in the set.
abbrev AllFresh : HashSet → List StreamId → Type 0
AllFresh seen [] = Unit
AllFresh seen (s ∷ ss) = (contains s seen ≡ false) × AllFresh seen ss

abbrev mark : HashSet → List StreamId → HashSet
mark seen [] = seen
mark seen (s ∷ ss) = mark (insert s seen) ss

AllFresh-insert :
    (s : StreamId) (seen : HashSet) (ss : List StreamId)
    → AllFresh seen ss
    → contains s ss ≡ false
    → AllFresh (insert s seen) ss
unfolding contains
AllFresh-insert s seen [] h c = tt
AllFresh-insert s seen (x ∷ ss) h c =
    ground (arith, AllFresh-insert s seen ss h.1, eq_iff s x, eq_iff x s)

collect_streams-append :
    (seen : HashSet) (done ss rest : List StreamId)
    → AllFresh seen ss
    → Distinct ss
    → collect_streams seen done (ss ++ rest) ≡ collect_streams (mark seen ss) (done ++ ss) rest
unfolding collect_streams
collect_streams-append seen done [] rest f d = rw append-nil
collect_streams-append seen done (s ∷ ss) rest f d = rw f.0 (
    collect_streams-append (insert s seen) (done ++ s ∷ []) ss rest
      (AllFresh-insert s seen ss f.1 d.0) d.1
    ∙ ap (λ xs. collect_streams (mark (insert s seen) ss) xs rest) (rw append_assoc))

contains-mark :
    (k : StreamId) (seen : HashSet) (ss : List StreamId)
    → contains k (mark seen ss) ≡ (contains k ss || contains k seen)
unfolding contains
contains-mark k seen [] = refl
contains-mark k seen (s ∷ ss) = ground (arith, contains-mark k (s ∷ seen) ss)

AllFresh-nil : (ss : List StreamId) → AllFresh [] ss
unfolding contains
AllFresh-nil [] = tt
AllFresh-nil (s ∷ ss) = (refl, AllFresh-nil ss)

AllFresh-insert_inv :
    (s : StreamId) (seen : HashSet) (ss : List StreamId)
    → AllFresh (insert s seen) ss
    → AllFresh seen ss × (contains s ss ≡ false)
unfolding contains
AllFresh-insert_inv s seen [] h = (tt, refl)
AllFresh-insert_inv s seen (x ∷ ss) h =
    ground (arith, AllFresh-insert_inv s seen ss h.1, eq_iff s x, eq_iff x s)

collected :
    (seen : HashSet) (done ss out : List StreamId)
    → collect_streams seen done ss ≡ ok out
    → (out ≡ done ++ ss) × AllFresh seen ss × Distinct ss
unfolding collect_streams
collected seen done [] out h = (rw append-nil (cc), tt, tt)
collected seen done (s ∷ ss) out h = elim (Bool-cases (contains s seen)) [
  | inl old ↦ absurd (ground arith)
  | inr new ↦
      let (e, f, d) = collected (insert s seen) (done ++ s ∷ []) ss out (rw new at h) in
      let (f', c) = AllFresh-insert_inv s seen ss f in
      (e ∙ append_assoc done (s ∷ []) ss, (new, f'), (c, d))
]

collected_back : (ss : List StreamId) → Distinct ss → collect_streams [] [] ss ≡ ok ss
unfolding collect_streams
collected_back ss h =
    subst (λ xs. collect_streams [] [] xs ≡ ok ss) (append-nil ss)
      (collect_streams-append [] [] ss [] (AllFresh-nil ss) h)

not_empty_inv :
    (ss : List StreamId) (d : StreamDeclarations)
    → not_empty ss ≡ ok d
    → (d.streams ≡ ss) × (ss ≢ [])
unfolding not_empty
not_empty_inv [] d h = cc
not_empty_inv (s ∷ ss) d h = (ground arith, λ e. cc)

not_empty_back :
    (ss : List StreamId) (d : StreamDeclarations) → d.streams ≡ ss → ss ≢ [] → not_empty ss ≡ ok d
unfolding not_empty
not_empty_back [] d h n = absurd (n refl)
not_empty_back (s ∷ ss) d h n = ground arith

not_empty-append :
    (ss : List StreamId) (p : StreamId)
    → not_empty (ss ++ p ∷ []) ≡ ok (record { streams = ss ++ p ∷ [] })
unfolding not_empty
not_empty-append [] p = refl
not_empty-append (s ∷ ss) p = refl

-- A list of streams is accepted exactly when it is not empty and no stream stands in it twice,
-- and the declarations are then that list, in its order.
pub try_from_streams_iff :
    (ss : List StreamId) (d : StreamDeclarations)
    → (try_from_streams ss ≡ ok d) ↔ ((d.streams ≡ ss) × (ss ≢ []) × Distinct ss)
unfolding try_from_streams
try_from_streams_iff ss d = (
  λ h.
      let (xs, p, q) = >>=-eq-ok (collect_streams [] [] ss) not_empty h in
      let (e, _, distinct) = collected [] [] ss xs p in
      let (e', n) = not_empty_inv xs d q in (e' ∙ e, λ z. n (e ∙ z), distinct),
  λ (e, n, distinct). rw (collected_back ss distinct) (not_empty_back ss d e n),
)

-- Adding a participant to valid declarations fails exactly when it is declared already, and
-- otherwise puts it last.
pub with_participant-eq :
    (d : StreamDeclarations) (p : StreamId)
    → Distinct d.streams
    → with_participant d p ≡ (
        if contains p d.streams
        then err (duplicate_stream p)
        else ok (record { streams = d.streams ++ p ∷ [] }))
unfolding with_participant try_from_streams contains
with_participant-eq d p h =
    rw (collect_streams-append [] [] d.streams (p ∷ []) (AllFresh-nil d.streams) h)
      (ground (arith, contains-mark p [] d.streams, not_empty-append d.streams p))
