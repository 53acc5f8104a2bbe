-- ===== src/Execute/OverMemory.antt =====
-- The in-memory store as an `EventStore` that other processes share: before each operation, and in
-- each sleep, the next batch of a schedule is appended by somebody else.
use eventcore.Prelude.{
  ℕ, ◌+◌, ◌≡◌, sym, ap, ◌∙◌, subst, String, List, [], ◌∷◌, ◌++◌, length, append-nil, true, Result,
  err, arith, Option-cases, Result-cases, Bool-cases, inl, inr,
}
use eventcore.Prelude.HashMap.{IsMap}
use eventcore.Types.Error.{StreamId, EventStoreError, store_failure, Operation}
use eventcore.Types.Event.{Event}
use eventcore.Types.Writes.{StreamWrites}
use eventcore.Types.Snapshot.{CommandStateSnapshot}
use eventcore.Types.Query.{StreamPosition}
use eventcore.Memory.Store.{
  InMemoryEventStore, events_of, decode, read, read_after, append, append_data, first_conflict,
  load_command_state_snapshot, save_command_state_snapshot, StoreData,
}
use eventcore.Memory.Append.{
  entries_for, events_of-write_entries, append_data-none, append_data-some, Appended-ok,
  append_data-Appended,
}
use eventcore.Memory.Reads.{append_live, read_inv, read_after_inv}
use eventcore.Memory.Invariant.{Versioned, append_data-Versioned}
use eventcore.Execute.Interface.{
  EventStore, Contract, Grows, Commits, Commits-of_ok, Commits-of_err, Commits-weaken, Grows-refl,
}

-- In every world that the store reaches, versions count events.
pub record World (Any Value : Type 0) : Type 0 where
  pub store : InMemoryEventStore Any Value
  pub schedule : List (StreamWrites Any)
  pub tick : ℕ
  pub versioned : Versioned store.content

append_poisoned :
    {Any Value : Type 0} (now_v7 : ℕ → StreamPosition) (writes : StreamWrites Any)
    (s : InMemoryEventStore Any Value)
    → s.poisoned ≡ true
    → append now_v7 writes s ≡ (err (store_failure Operation.append_events), s)
unfolding append
append_poisoned now_v7 writes s h = ground arith

module _ {Any Value : Type 0} where
  abbrev pub history : World Any Value → StreamId → List Any
  history w = events_of w.store.content

  pub append-Versioned :
      (now_v7 : ℕ → StreamPosition) (writes : StreamWrites Any) (s : InMemoryEventStore Any Value)
      → Versioned s.content
      → Versioned (append now_v7 writes s).1.content
  append-Versioned now_v7 writes s h = elim (Bool-cases s.poisoned) [
    | inl p ↦
        subst
          (λ (q : Result (Unit {0}) EventStoreError × InMemoryEventStore Any Value).
            Versioned q.1.content)
          (sym (append_poisoned now_v7 writes s p)) h
    | inr live ↦
        subst
          (λ (q : Result (Unit {0}) EventStoreError × InMemoryEventStore Any Value).
            Versioned q.1.content)
          (sym (append_live now_v7 writes s live)) (append_data-Versioned now_v7 writes s.content h)
  ]

  pub save-Versioned :
      (id : String) (x : CommandStateSnapshot Value) (s : InMemoryEventStore Any Value)
      → Versioned s.content
      → Versioned (save_command_state_snapshot id x s).1.content
  unfolding save_command_state_snapshot
  save-Versioned id x s h k = ground (arith, h k)

module _ {Any Value : Type 0} (clock : ℕ → StreamPosition) where
  -- One append, by whomever; `clock` is the sequence of all identifiers that are ever given.
  unfoldable pub append_at :
      StreamWrites Any → World Any Value → Result (Unit {0}) EventStoreError × World Any Value
  append_at writes w =
      let out = append (λ i. clock (w.tick + i)) writes w.store in
      (
        out.0,
        record {
          store = out.1;
          schedule = w.schedule;
          tick = w.tick + length writes.entries;
          versioned = append-Versioned (λ i. clock (w.tick + i)) writes w.store w.versioned;
        },
      )

  others : List (StreamWrites Any) → World Any Value → World Any Value
  others [] w = w
  others (b ∷ bs) w = (append_at b (record w { schedule = bs })).1

  -- The next batch of the schedule is appended.
  unfoldable pub interfere : World Any Value → World Any Value
  unfolding others
  interfere w = others w.schedule w

module _ {Any E Value : Type 0} (ev : Event Any E) (clock : ℕ → StreamPosition) where
  abbrev pub memory_store : EventStore Any E Value (World Any Value)
  memory_store = record {
    read_stream = λ k w. (read ev k (interfere clock w).store, interfere clock w);
    read_stream_after = λ k n w. (read_after ev k n (interfere clock w).store, interfere clock w);
    append_events = λ writes w. append_at clock writes (interfere clock w);
    load_command_state_snapshot =
        λ id w. (load_command_state_snapshot id (interfere clock w).store, interfere clock w);
    save_command_state_snapshot = λ id s w. (
      (save_command_state_snapshot id s (interfere clock w).store).0,
      record {
        store = (save_command_state_snapshot id s (interfere clock w).store).1;
        schedule = (interfere clock w).schedule;
        tick = (interfere clock w).tick;
        versioned = save-Versioned id s (interfere clock w).store (interfere clock w).versioned;
      },
    );
    sleep = λ ms w. interfere clock w;
  }

module _ {Any Value : Type 0} (clock : ℕ → StreamPosition) where
  append_data_grows :
      (now_v7 : ℕ → StreamPosition) (writes : StreamWrites Any) (d : StoreData Any Value)
      (k : StreamId)
      → (more : List Any) × (events_of (append_data now_v7 writes d).1 k ≡ events_of d k ++ more)
  append_data_grows now_v7 writes d k =
      elim (Option-cases (first_conflict d writes.expected_versions)) [
        | inl clear ↦ (
          entries_for k writes.entries,
          rw (append_data-none now_v7 writes d clear)
              (events_of-write_entries now_v7 0 writes.entries d k),
        )
        | inr (e, found) ↦
            ([], rw (append_data-some now_v7 writes d e found) (sym (append-nil (events_of d k))))
      ]

  append_at-Grows :
      (writes : StreamWrites Any) (w : World Any Value)
      → Grows history w (append_at clock writes w).1
  unfolding append_at
  append_at-Grows writes w k = elim (Bool-cases w.store.poisoned) [
    | inl p ↦ (
      [],
      rw (append_poisoned (λ i. clock (w.tick + i)) writes w.store p)
          (sym (append-nil (history w k))),
    )
    | inr live ↦
        let (more, e) = append_data_grows (λ i. clock (w.tick + i)) writes w.store.content k in
        (more, rw (append_live (λ i. clock (w.tick + i)) writes w.store live) e)
  ]

  others-Grows :
      (bs : List (StreamWrites Any)) (w : World Any Value) → Grows history w (others clock bs w)
  unfolding others
  others-Grows [] w = λ k. ([], sym (append-nil (history w k)))
  others-Grows (b ∷ bs) w = append_at-Grows b (record w { schedule = bs })

  interfere-Grows : (w : World Any Value) → Grows history w (interfere clock w)
  unfolding interfere
  interfere-Grows w = others-Grows w.schedule w

  append_at-Commits :
      (writes : StreamWrites Any) (w : World Any Value)
      → IsMap writes.expected_versions
      → Commits history writes w (append_at clock writes w)
  unfolding append_at
  append_at-Commits writes w h = elim (Result-cases (append_at clock writes w).0) [
    | inr (x, e) ↦
        Commits-of_err history writes w (append_at clock writes w) x e (append_at-Grows writes w)
    | inl (u, e) ↦ elim (Bool-cases w.store.poisoned) [
      | inl p ↦
          absurd (cc (ap (λ q. q.0) (append_poisoned (λ i. clock (w.tick + i)) writes w.store p)))
      | inr live ↦
          let now_v7 : ℕ → StreamPosition = λ i. clock (w.tick + i) in
          let step = append_live now_v7 writes w.store live in
          let (at, app) =
            Appended-ok now_v7 writes w.store.content (append_data now_v7 writes w.store.content)
              (append_data-Appended now_v7 writes w.store.content h)
              (sym (ap (λ q. q.0) step) ∙ e) in
          Commits-of_ok history writes w w (append_at clock writes w) e (Grows-refl history w)
            (λ k v found. sym (w.versioned k) ∙ at k v found) (λ k. rw step (app k))
    ]
  ]

module _ {Any E Value : Type 0} (ev : Event Any E) (clock : ℕ → StreamPosition) where
  pub memory-Contract : Contract {Value = Value} (memory_store ev clock) history (decode ev)
  memory-Contract = record {
    read_grows = λ k w. interfere-Grows clock w;
    read_items = λ k w items e. (read_inv ev k (interfere clock w).store items e).1;
    read_after_grows = λ k v w. interfere-Grows clock w;
    read_after_items = λ k v w items e. read_after_inv ev k v (interfere clock w).store items e;
    append_commits = λ writes w h.
        Commits-weaken history writes w (interfere clock w)
          (append_at clock writes (interfere clock w)) (interfere-Grows clock w)
          (append_at-Commits clock writes (interfere clock w) h);
    sleep_grows = λ ms w. interfere-Grows clock w;
  }
