-- ===== src/Execute/Discovery.antt =====
-- Commands whose discovery stays within a finite set of streams, and what is left to visit of it.
use eventcore.Prelude.{
  ℕ, suc, ◌≤◌, ◌<◌, ◌≡◌, List, [], ◌∷◌, ◌++◌, true, false, some, All, arith, eq_iff, if◌then◌else◌,
  Bool-cases, Option-cases, inl, inr, sym, ◌∙◌, subst,
}
use eventcore.Prelude.HashSet
use eventcore.Prelude.HashSet.{HashSet, contains, contains-insert}
use eventcore.Types.Error.{StreamId}
use eventcore.Execute.Interface.{CommandLogic}
use eventcore.Execute.Pipeline.{
  Reading, enqueue, discover, next_unvisited, initial_reading, end_stream,
}

-- Every stream of the list is in the set.
abbrev pub Within : HashSet → List StreamId → Type 0
Within u ss = All (λ s. contains s u ≡ true) ss

-- A command that declares and discovers only streams of the set.
pub record IsConfined {E S Value : Type 0} (command : CommandLogic E S Value) (u : HashSet)
    : Type 0 where
  pub declared : Within u command.stream_declarations.streams
  pub discovered :
      (resolver : S → List StreamId)
      → command.stream_resolver ≡ some resolver
      → (s : S) → Within u (resolver s)

-- How many places of the set are not visited.
abbrev pub unvisited : HashSet → HashSet → ℕ
unvisited [] visited = 0
unvisited (s ∷ u) visited =
    let rest = unvisited u visited in if contains s visited then rest else suc rest

unvisited-insert_le :
    (u visited : HashSet) (k : StreamId)
    → unvisited u (HashSet.insert k visited) ≤ unvisited u visited
unvisited-insert_le [] visited k = omega arith
unvisited-insert_le (s ∷ u) visited k =
    ground (arith, unvisited-insert_le u visited k, contains-insert k s visited)

-- A visit makes the number smaller.
pub unvisited-insert :
    (u visited : HashSet) (k : StreamId)
    → contains k u ≡ true
    → contains k visited ≡ false
    → unvisited u (HashSet.insert k visited) < unvisited u visited
unfolding contains
unvisited-insert [] visited k h v = cc
unvisited-insert (s ∷ u) visited k h v =
    ground (arith, unvisited-insert u visited k, unvisited-insert_le u visited k, eq_iff s k)

Within-append :
    (u : HashSet) (xs : List StreamId) (s : StreamId)
    → Within u xs
    → contains s u ≡ true
    → Within u (xs ++ s ∷ [])
Within-append u [] s h c = (c, tt)
Within-append u (x ∷ xs) s h c = (h.0, Within-append u xs s h.1 c)

pub enqueue_old :
    (s : StreamId) (ss queue : List StreamId) (scheduled : HashSet)
    → contains s scheduled ≡ true
    → enqueue (s ∷ ss) (queue, scheduled) ≡ enqueue ss (queue, scheduled)
unfolding enqueue
enqueue_old s ss queue scheduled h = rw (enqueue, h)

pub enqueue_new :
    (s : StreamId) (ss queue : List StreamId) (scheduled : HashSet)
    → contains s scheduled ≡ false
    → enqueue (s ∷ ss) (queue, scheduled) ≡ enqueue ss (queue ++ s ∷ [], HashSet.insert s scheduled)
unfolding enqueue
enqueue_new s ss queue scheduled h = rw (enqueue, h)

enqueue-Within :
    (u : HashSet) (ss queue : List StreamId) (scheduled : HashSet)
    → Within u ss
    → Within u queue
    → Within u (enqueue ss (queue, scheduled)).0
unfolding enqueue
enqueue-Within u [] queue scheduled h q = q
enqueue-Within u (s ∷ ss) queue scheduled h q = elim (Bool-cases (contains s scheduled)) [
  | inl old ↦ rw (enqueue_old s ss queue scheduled old) (enqueue-Within u ss queue scheduled h.1 q)
  | inr fresh ↦ rw (enqueue_new s ss queue scheduled fresh) (
      enqueue-Within u ss (queue ++ s ∷ []) (HashSet.insert s scheduled) h.1
        (Within-append u queue s q h.0))
]

pub next_old :
    (visited queue : List StreamId) (s : StreamId)
    → contains s visited ≡ true
    → next_unvisited visited (s ∷ queue) ≡ next_unvisited visited queue
unfolding next_unvisited
next_old visited queue s h = ground arith

pub next_new :
    (visited queue : List StreamId) (s k : StreamId) (rest : List StreamId)
    → contains s visited ≡ false
    → next_unvisited visited (s ∷ queue) ≡ some (k, rest)
    → (s ≡ k) × (queue ≡ rest)
unfolding next_unvisited
next_new visited queue s k rest f h = ground arith

-- What is popped is in the set, and what is left in the queue too.
pub next_unvisited-Within :
    (u visited queue : List StreamId) (k : StreamId) (rest : List StreamId)
    → Within u queue
    → next_unvisited visited queue ≡ some (k, rest)
    → (contains k u ≡ true) × Within u rest
unfolding next_unvisited
next_unvisited-Within u visited [] k rest q h = absurd (cc)
next_unvisited-Within u visited (s ∷ queue) k rest q h = elim (Bool-cases (contains s visited)) [
  | inl old ↦
      next_unvisited-Within u visited queue k rest q.1 (sym (next_old visited queue s old) ∙ h)
  | inr fresh ↦
      let (same, left) = next_new visited queue s k rest fresh h in
      (subst (λ x. contains x u ≡ true) same q.0, subst (Within u) left q.1)
]

module _ {E S Value : Type 0} (command : CommandLogic E S Value) (u : HashSet)
    (c : IsConfined command u) where
  pub initial_reading-Within : Within u (initial_reading command).queue
  unfolding initial_reading
  initial_reading-Within = enqueue-Within u command.stream_declarations.streams [] [] c.declared tt

  discover-Within :
      (s : S) (queue : List StreamId) (scheduled : HashSet)
      → Within u queue
      → Within u (discover command s (queue, scheduled)).0
  unfolding discover
  discover-Within s queue scheduled h = elim (Option-cases command.stream_resolver) [
    | inl e ↦ rw e h
    | inr (resolver, e) ↦
        rw e (enqueue-Within u (resolver s) queue scheduled (c.discovered resolver e s) h)
  ]

  pub end_stream-Within :
      (k : StreamId) (r : Reading S) (n : ℕ)
      → Within u r.queue
      → Within u (end_stream command k r n).queue
  unfolding end_stream
  end_stream-Within k r n h = discover-Within r.state r.queue r.scheduled h
