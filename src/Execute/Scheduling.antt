-- ===== src/Execute/Scheduling.antt =====
-- The streams that are scheduled, as a set: the pipeline and the replay list them in other orders.
use eventcore.Prelude.{
  ◌≡◌, refl, sym, ap, ◌∙◌, List, [], ◌∷◌, ◌++◌, append-nil, append_assoc, Bool, true, false, ◌||◌,
  arith, ◌==◌, eq_iff, All, Bool-cases, Option-cases, inl, inr,
}
use eventcore.Prelude.HashSet
use eventcore.Prelude.HashSet.{HashSet, contains, contains-insert}
use eventcore.Types.Error.{StreamId}
use eventcore.Types.Declarations.{Distinct}
use eventcore.Execute.Interface.{CommandLogic}
use eventcore.Execute.Pipeline.{enqueue, discover, initial_reading}
use eventcore.Execute.Discovery.{enqueue_old, enqueue_new}

-- Two sets with the same elements.
abbrev pub Same : HashSet → HashSet → Type 0
Same a b = (k : StreamId) → contains k a ≡ contains k b

enqueue-Same :
    (ss queue : List StreamId) (a b : HashSet)
    → Same a b
    → ((enqueue ss (queue, a)).0 ≡ (enqueue ss (queue, b)).0)
      × Same (enqueue ss (queue, a)).1 (enqueue ss (queue, b)).1
unfolding enqueue
enqueue-Same [] queue a b h = (refl, h)
enqueue-Same (s ∷ ss) queue a b h = elim (Bool-cases (contains s b)) [
  | inl old ↦
      rw (enqueue_old s ss queue a (h s ∙ old), enqueue_old s ss queue b old)
        (enqueue-Same ss queue a b h)
  | inr new ↦
      rw (enqueue_new s ss queue a (h s ∙ new), enqueue_new s ss queue b new)
        (enqueue-Same ss (queue ++ s ∷ []) (HashSet.insert s a) (HashSet.insert s b) (λ k.
          contains-insert s k a ∙ (ap (λ x. s == k || x) (h k) ∙ sym (contains-insert s k b))))
]

fresh-insert :
    (s : StreamId) (scheduled : HashSet) (ss : List StreamId)
    → All (λ x. contains x scheduled ≡ false) ss
    → contains s ss ≡ false
    → All (λ x. contains x (HashSet.insert s scheduled) ≡ false) ss
unfolding contains
fresh-insert s scheduled [] f n = tt
fresh-insert s scheduled (x ∷ ss) f n =
    ground (arith, eq_iff s x, eq_iff x s, fresh-insert s scheduled ss f.1)

none_scheduled : (ss : List StreamId) → All (λ s. contains s [] ≡ false) ss
unfolding contains
none_scheduled [] = tt
none_scheduled (s ∷ ss) = (refl, none_scheduled ss)

swap_or : (a b c : Bool) → ((a || b) || c) ≡ (b || (a || c))
swap_or true true c = refl
swap_or true false c = refl
swap_or false true c = refl
swap_or false false c = refl

-- From streams that are not scheduled, distinct ones are enqueued in their order.
enqueue_new_ones :
    (ss queue : List StreamId) (scheduled : HashSet)
    → Distinct ss
    → All (λ s. contains s scheduled ≡ false) ss
    → ((enqueue ss (queue, scheduled)).0 ≡ queue ++ ss)
      × ((k : StreamId)
          → contains k (enqueue ss (queue, scheduled)).1 ≡ (contains k scheduled || contains k ss))
unfolding contains enqueue
enqueue_new_ones [] queue scheduled d f = (sym (append-nil queue), λ k. ground arith)
enqueue_new_ones (s ∷ ss) queue scheduled d f =
    let (q, c) =
      enqueue_new_ones ss (queue ++ s ∷ []) (HashSet.insert s scheduled) d.1
        (fresh-insert s scheduled ss f.1 d.0) in
    let step = enqueue_new s ss queue scheduled f.0 in
    (
      ap (λ o. o.0) step ∙ (q ∙ append_assoc queue (s ∷ []) ss),
      λ k.
          ap (λ o. contains k o.1) step
          ∙ (c k ∙ swap_or (s == k) (contains k scheduled) (contains k ss)),
    )

module _ {E S Value : Type 0} (command : CommandLogic E S Value) where
  pub discover-Same :
      (s : S) (queue : List StreamId) (a b : HashSet)
      → Same a b
      → ((discover command s (queue, a)).0 ≡ (discover command s (queue, b)).0)
        × Same (discover command s (queue, a)).1 (discover command s (queue, b)).1
  unfolding discover
  discover-Same s queue a b h = elim (Option-cases command.stream_resolver) [
    | inl e ↦ rw e (refl, h)
    | inr (resolver, e) ↦ rw e (enqueue-Same (resolver s) queue a b h)
  ]

  -- What the read phase starts with: the declared streams, which are distinct, in their order.
  pub initial_reading-Same :
      Distinct command.stream_declarations.streams
      → ((initial_reading command).queue ≡ command.stream_declarations.streams)
        × Same command.stream_declarations.streams (initial_reading command).scheduled
  unfolding initial_reading contains
  initial_reading-Same d =
      let ss = command.stream_declarations.streams in
      let (q, c) = enqueue_new_ones ss [] [] d (none_scheduled ss) in (q, λ k. sym (c k))
