-- ===== src/Execute/ReadPhase.antt =====
-- The invariant of the read phase: what was read is a prefix of what the streams hold, and replays
-- to the state at hand.
use mathlib.Core.Path.{subst₂}
use eventcore.Prelude.{
  ◌%◌, ◌≡◌, refl, sym, ap, ◌∙◌, subst, List, [], ◌∷◌, ◌++◌, map, length, true, false, Option, none,
  some, Result, ok, arith, append_assoc, append-nil, Option-cases, inl, inr,
}
use eventcore.Prelude.HashMap
use eventcore.Prelude.HashMap.{
  HashMap, lookup, lookup-nil, lookup-insert, lookup-insert_self, IsMap, insert-IsMap, insert_keeps,
  insert_inv,
}
use eventcore.Prelude.HashSet
use eventcore.Prelude.HashSet.{contains, contains-insert_self, contains-insert_old}
use eventcore.Types.Error.{StreamId, StreamVersion, usize_mod, EventStoreError}
use eventcore.Execute.Interface.{CommandLogic, Grows, Grows-trans}
use eventcore.Execute.Pipeline.{Reading, initial_reading, next_unvisited, end_stream}
use eventcore.Execute.Atomic.{read_one, Replays, start, then_read}

-- The stream that is popped was not visited.
pub next_unvisited-contains :
    (visited queue : List StreamId) (k : StreamId) (rest : List StreamId)
    → next_unvisited visited queue ≡ some (k, rest)
    → contains k visited ≡ false
unfolding next_unvisited
next_unvisited-contains visited [] k rest h = cc
next_unvisited-contains visited (s ∷ queue) k rest h =
    ground (arith, next_unvisited-contains visited queue k rest)

-- The version that a stream is expected at, by what was read of it.
abbrev pub version_read {ℓ} : {E : Type ℓ} → Option (List E) → Option StreamVersion
version_read none = none
version_read (some es) = some (length es % usize_mod)

abbrev pub Agrees {ℓ} : {E : Type ℓ} → (StreamId → List E) → HashMap (List E) → Type ℓ
Agrees {E} h log = (k : StreamId) (es : List E) → lookup k log ≡ some es → h k ≡ es

module _ {Any E S Value W : Type 0} (command : CommandLogic E S Value)
    (history : W → StreamId → List Any) (decode : StreamId → Any → Result E EventStoreError) where
  -- `xs` is what `es` was decoded from, and a prefix of what the stream holds.
  pub record Recorded (w : W) (k : StreamId) (es : List E) : Type 0 where
    pub seen : List Any
    pub later : List Any
    pub prefix : history w k ≡ seen ++ later
    pub decoded : map (decode k) seen ≡ map ok es

  -- `log` has the streams that were read, with the events that each yielded.
  pub record ReadSoFar (w₀ w : W) (log : HashMap (List E)) (r : Reading S) : Type 0 where
    pub grown : Grows history w₀ w
    pub replays :
        (h : StreamId → List E) → Agrees h log → Replays command h (initial_reading command) r
    pub marked : (k : StreamId) (es : List E) → lookup k log ≡ some es → contains k r.visited ≡ true
    pub versions : (k : StreamId) → lookup k r.expected_versions ≡ version_read (lookup k log)
    pub recorded : (k : StreamId) (es : List E) → lookup k log ≡ some es → Recorded w k es
    pub is_map : IsMap r.expected_versions

  pub Recorded-Grows :
      (a b : W) (k : StreamId) (es : List E) → Grows history a b → Recorded a k es → Recorded b k es
  Recorded-Grows a b k es g r =
      let (m, p) = g k in
      record {
        seen = r.seen;
        later = r.later ++ m;
        prefix = p ∙ (ap (λ xs. xs ++ m) r.prefix ∙ append_assoc r.seen r.later m);
        decoded = r.decoded;
      }

  -- Before anything is read.
  pub ReadSoFar-start :
      (w₀ w : W) → Grows history w₀ w → ReadSoFar w₀ w [] (initial_reading command)
  unfolding lookup initial_reading
  ReadSoFar-start w₀ w g = record {
    grown = g;
    replays = λ h a. start refl;
    marked = λ k es e. cc;
    versions = λ k. refl;
    recorded = λ k es e. absurd (ground arith);
    is_map = tt;
  }

  -- Time passes.
  pub ReadSoFar-Grows :
      (w₀ a b : W) (log : HashMap (List E)) (r : Reading S)
      → Grows history a b
      → ReadSoFar w₀ a log r
      → ReadSoFar w₀ b log r
  ReadSoFar-Grows w₀ a b log r g s = record {
    grown = Grows-trans history w₀ a b s.grown g;
    replays = s.replays;
    marked = s.marked;
    versions = s.versions;
    recorded = λ k es e. Recorded-Grows a b k es g (s.recorded k es e);
    is_map = s.is_map;
  }

  unlogged :
      (w₀ w : W) (log : HashMap (List E)) (r : Reading S) (k : StreamId)
      → ReadSoFar w₀ w log r
      → contains k r.visited ≡ false
      → lookup k log ≡ none
  unlogged w₀ w log r k s h = elim (Option-cases (lookup k log)) [
    | inl e ↦ e
    | inr (es, e) ↦ absurd (cc (s.marked k es e))
  ]

  marked_next :
      (r : Reading S) (k j : StreamId) (es fs : List E) (log : HashMap (List E))
      → (lookup j log ≡ some fs → contains j r.visited ≡ true)
      → lookup j (HashMap.insert k es log) ≡ some fs
      → contains j (HashSet.insert k r.visited) ≡ true
  marked_next r k j es fs log h e = elim (insert_inv k j es fs log e) [
    | inl (p, _) ↦
        subst (λ i. contains i (HashSet.insert k r.visited) ≡ true) p
          (contains-insert_self k r.visited)
    | inr old ↦ contains-insert_old k j r.visited (h old)
  ]

  versions_next :
      (k j : StreamId) (es : List E) (log : HashMap (List E)) (m : HashMap StreamVersion)
      → lookup j m ≡ version_read (lookup j log)
      → lookup j (HashMap.insert k (length es % usize_mod) m)
        ≡ version_read (lookup j (HashMap.insert k es log))
  versions_next k j es log m h =
      ground (arith, lookup-insert k j es log, lookup-insert k j (length es % usize_mod) m)

  Recorded-next :
      (w : W) (k j : StreamId) (es fs : List E) (log : HashMap (List E))
      → (lookup j log ≡ some fs → Recorded w j fs)
      → Recorded w k es
      → lookup j (HashMap.insert k es log) ≡ some fs
      → Recorded w j fs
  Recorded-next w k j es fs log h d e = elim (insert_inv k j es fs log e) [
    | inl (p, q) ↦ subst₂ (Recorded w) p q d
    | inr old ↦ h old
  ]

  -- A stream that was read whole.
  pub Recorded-whole :
      (w : W) (k : StreamId) (es : List E)
      → map (decode k) (history w k) ≡ map ok es
      → Recorded w k es
  Recorded-whole w k es d = record {
    seen = history w k;
    later = [];
    prefix = sym (append-nil (history w k));
    decoded = d;
  }

  -- One more stream was read, and may have grown since.
  pub ReadSoFar-then :
      (w₀ w : W) (log : HashMap (List E)) (r : Reading S) (k : StreamId) (rest : List StreamId)
      (es : List E)
      → ReadSoFar w₀ w log r
      → next_unvisited r.visited r.queue ≡ some (k, rest)
      → Recorded w k es
      → ReadSoFar w₀ w (HashMap.insert k es log) (read_one command r k rest es)
  unfolding end_stream
  ReadSoFar-then w₀ w log r k rest es s n d =
      let fresh = unlogged w₀ w log r k s (next_unvisited-contains r.visited r.queue k rest n) in
      record {
        grown = s.grown;
        replays = λ h a.
            then_read r k rest (s.replays h (λ j fs e. a j fs (insert_keeps k j es fs log fresh e)))
              n (ap (read_one command r k rest) (sym (a k es (lookup-insert_self k es log))));
        marked = λ j fs e. marked_next r k j es fs log (s.marked j fs) e;
        versions = λ j. versions_next k j es log r.expected_versions (s.versions j);
        recorded = λ j fs e. Recorded-next w k j es fs log (s.recorded j fs) d e;
        is_map = insert-IsMap k (length es % usize_mod) r.expected_versions s.is_map;
      }

  -- One more stream is read in full.
  pub ReadSoFar-next :
      (w₀ w : W) (log : HashMap (List E)) (r : Reading S) (k : StreamId) (rest : List StreamId)
      (es : List E)
      → ReadSoFar w₀ w log r
      → next_unvisited r.visited r.queue ≡ some (k, rest)
      → map (decode k) (history w k) ≡ map ok es
      → ReadSoFar w₀ w (HashMap.insert k es log) (read_one command r k rest es)
  ReadSoFar-next w₀ w log r k rest es s n d =
      ReadSoFar-then w₀ w log r k rest es s n (Recorded-whole w k es d)
