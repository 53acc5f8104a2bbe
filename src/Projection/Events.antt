-- ===== src/Projection/Events.antt =====
-- The events of a page: the state machine against the reference.
use native.Mathlib.Nat.{zero-add}
use eventcore.Prelude.{
  ℕ, zero, suc, ◌+◌, ◌≤◌, ◌≡◌, refl, subst, String, List, [], ◌∷◌, drop, Result, ok, err, arith,
  Bool-cases, inl, inr,
}
use eventcore.Types.Query.{StreamPosition, FailureStrategy, fatal, skip, retry}
use eventcore.Projection.Projector.{Projector, Backend}
use eventcore.Projection.Config.{batch}
use eventcore.Projection.Pipeline.{
  Float, ProjectionError, failed, save_checkpoint, sleep, ProjectionEffectResult, checkpoint_saved,
  finished, Processing, Saving, ProjectionPhase, awaiting_checkpoint_save,
  awaiting_skip_checkpoint_save, awaiting_event_retry_sleep, done, ProjectionPipeline, Settings,
  at_phase, next_event, settled_at, retry_delay, settle, end_page, retry_event, respond, handle,
  process, step, resume,
}
use eventcore.Projection.Shell.{dispatch}
use eventcore.Projection.Reference.{
  Verdict, stopped, save_position, answer, judge, try_event, then_go_on, project_events,
}
use eventcore.Projection.Loop.{
  drop_next, leb-true, leb-false, Ends, finish-Ends, yield-Ends, settle_store, settle_bare,
  save_store, save_bare, dispatch_save,
}

module _ {E X C P F W : Type 0} (projector : Projector E X C P) (event_type_name : String)
    (f : Float F) (settings : Settings F) (backend : Backend E W) where
  -- From the events `rest` on, untried, the loop does what the reference does.
  abbrev pub Goes : List (E × StreamPosition) → Type 0
  Goes rest =
      (s : Processing E C) (p : ProjectionPipeline E C P) (w : W)
      → drop s.event_index s.events ≡ rest
      → s.retry_count ≡ 0
      → Ends projector event_type_name f settings backend (process projector f settings rest s p) w
          (project_events projector event_type_name f settings backend rest p.projector s.ctx w)

  pub settle-Ends :
      (a : ProjectionPhase E C) (position : StreamPosition) (v : Saving E C)
      (p : ProjectionPipeline E C P) (w : W) (rest : List (E × StreamPosition))
      → ((x : ProjectionEffectResult E)
          → resume projector event_type_name f settings x (at_phase p a)
            ≡ process projector f settings
                (drop (v.event_index + 1) v.events)
                (next_event v)
                (at_phase p done))
      → drop (v.event_index + 1) v.events ≡ rest
      → Goes rest
      → Ends projector event_type_name f settings backend
          (settle projector settings a position p
            (process projector f settings rest (next_event v) p))
          w
          (project_events projector event_type_name f settings backend rest p.projector v.ctx
            (save_position projector event_type_name f settings backend position p.projector w))
  settle-Ends a position v p w rest back h go = elim (Bool-cases settings.has_checkpoint_store) [
    | inl store ↦
        let saved = backend.save (projector.name p.projector) position w in
        rw
          (
            settle_store projector event_type_name f settings backend a position p
                (process projector f settings rest (next_event v) p) store,
            save_store projector event_type_name f settings backend position p.projector w store,
          )
          (yield-Ends projector event_type_name f settings backend
            (save_checkpoint (projector.name p.projector) position) (at_phase p a) w
            (project_events projector event_type_name f settings backend rest p.projector v.ctx
              saved.1)
            (rw
              (
                dispatch_save projector event_type_name f settings backend
                    (projector.name p.projector) position w store,
                back (checkpoint_saved saved.0),
                h,
              )
              (go (next_event v) (at_phase p done) saved.1 h refl)))
    | inr bare ↦
        rw
          (
            settle_bare projector event_type_name f settings backend a position p
                (process projector f settings rest (next_event v) p) bare,
            save_bare projector event_type_name f settings backend position p.projector w bare,
          )
          (go (next_event v) p w h refl)
  ]

  -- What the reference does with the rest of a page, once the event before it is judged.
  abbrev pub Rest :
      List (E × StreamPosition) → Verdict C P W → Result (Unit {0}) ProjectionError × W
  Rest rest v =
      then_go_on projector event_type_name f settings backend
        (project_events projector event_type_name f settings backend rest) v

  -- From a failed attempt that is to be retried, the loop does what `again` does.
  abbrev pub Again :
      (P → C → W → Verdict C P W)
      → List (E × StreamPosition)
      → Processing E C
      → ProjectionPipeline E C P
      → W
      → Type 0
  Again again rest s p w =
      (p' : P) (c' : C)
      → Ends projector event_type_name f settings backend
          (retry_event projector f settings (record s { ctx = c' }) (record p { projector = p' })) w
          (Rest rest (again p' c' w))

  pub respond-Ends :
      (again : P → C → W → Verdict C P W) (event : E) (position : StreamPosition)
      (rest : List (E × StreamPosition)) (s : Processing E C) (p : ProjectionPipeline E C P) (w : W)
      (c : C) (q : FailureStrategy × P)
      → drop s.event_index s.events ≡ (event, position) ∷ rest
      → Goes rest
      → Again again rest s p w
      → Ends projector event_type_name f settings backend
          (respond projector f settings position s p (process projector f settings rest) c q)
          w
          (Rest rest (answer projector event_type_name f settings backend position c w again q))
  unfolding respond answer then_go_on
  respond-Ends again event position rest s p w c (fatal, p') h go retries =
      finish-Ends projector event_type_name f settings backend
        (err (failed "projector apply failed")) (record p { projector = p' }) w
  respond-Ends again event position rest s p w c (skip, p') h go retries =
      unfold resume step in
      (settle-Ends (awaiting_skip_checkpoint_save (settled_at position s c)) position
        (settled_at position s c) (record p { projector = p' }) w rest (λ x. refl)
        (drop_next s.event_index s.events (event, position) rest h) go)
  respond-Ends again event position rest s p w c (retry, p') h go retries = retries p' c

  pub handle-Ends :
      (again : P → C → W → Verdict C P W) (event : E) (position : StreamPosition)
      (rest : List (E × StreamPosition)) (s : Processing E C) (p : ProjectionPipeline E C P) (w : W)
      (q : Result (Unit {0}) X × P × C)
      → drop s.event_index s.events ≡ (event, position) ∷ rest
      → Goes rest
      → Again again rest s p w
      → Ends projector event_type_name f settings backend
          (handle projector f settings position s p (process projector f settings rest) q)
          w
          (Rest rest
            (judge projector event_type_name f settings backend position s.retry_count w again q))
  unfolding handle judge then_go_on
  handle-Ends again event position rest s p w (ok _, p', c) h go retries =
      unfold resume step in
      (settle-Ends (awaiting_checkpoint_save (settled_at position s c)) position
        (settled_at position s c) (record p { projector = p' }) w rest (λ x. refl)
        (drop_next s.event_index s.events (event, position) rest h) go)
  handle-Ends again event position rest s p w (err x, p', c) h go retries =
      respond-Ends again event position rest s p w c
        (projector.on_error p'
          (record { error = x; position = position; retry_count = s.retry_count }))
        h go retries

  -- No retries are left.
  pub exhausted :
      (event : E × StreamPosition) (rest : List (E × StreamPosition)) (s : Processing E C)
      (p : ProjectionPipeline E C P) (w : W)
      → s.retry_count ≡ settings.event_retry_config.max_retry_attempts
      → Again
          (λ p' c' w'. stopped (failed "projector apply failed after max retries") w')
          rest
          s
          p
          w
  unfolding retry_event then_go_on
  exhausted event rest s p w h p' c' =
      rw (leb-true settings.event_retry_config.max_retry_attempts s.retry_count (omega arith)) (
        finish-Ends projector event_type_name f settings backend
          (err (failed "projector apply failed after max retries")) (record p { projector = p' }) w)

  -- An event that is tried again after a sleep.
  pub retried :
      (again : P → C → W → Verdict C P W) (event : E × StreamPosition)
      (rest : List (E × StreamPosition)) (s : Processing E C) (p : ProjectionPipeline E C P) (w : W)
      → s.retry_count + 1 ≤ settings.event_retry_config.max_retry_attempts
      → drop s.event_index s.events ≡ event ∷ rest
      → ((p' : P) (c' : C)
          → Ends projector event_type_name f settings backend
              (process projector f settings
                (event ∷ rest)
                (record s { ctx = c'; retry_count = s.retry_count + 1 })
                (record p { projector = p'; phase = done }))
              (backend.sleep (retry_delay f settings.event_retry_config (s.retry_count + 1)) w)
              (Rest rest (again p' c' w)))
      → Again again rest s p w
  unfolding retry_event resume step dispatch
  retried again event rest s p w l h tries p' c' =
      rw (leb-false settings.event_retry_config.max_retry_attempts s.retry_count (omega arith)) (
        yield-Ends projector event_type_name f settings backend
          (sleep (retry_delay f settings.event_retry_config (s.retry_count + 1)))
          (record p {
            projector = p';
            phase =
                awaiting_event_retry_sleep (record s { ctx = c'; retry_count = s.retry_count + 1 });
          })
          w (Rest rest (again p' c' w)) (rw h (tries p' c')))

  -- An event with `m` retries left.
  pub event-Ends :
      (m : ℕ) (event : E × StreamPosition) (rest : List (E × StreamPosition)) (s : Processing E C)
      (p : ProjectionPipeline E C P) (w : W)
      → s.retry_count + m ≡ settings.event_retry_config.max_retry_attempts
      → drop s.event_index s.events ≡ event ∷ rest
      → Goes rest
      → Ends projector event_type_name f settings backend
          (process projector f settings (event ∷ rest) s p)
          w
          (Rest rest (
            try_event projector event_type_name f settings backend m s.retry_count event p.projector
              s.ctx w))
  unfolding process try_event
  event-Ends zero (event, position) rest s p w l h go =
      handle-Ends (λ p' c' w'. stopped (failed "projector apply failed after max retries") w') event
        position rest s p w (projector.apply p.projector event position s.ctx) h go
        (exhausted (event, position) rest s p w (omega arith))
  event-Ends (suc m) (event, position) rest s p w l h go =
      let again = λ (p' : P) (c' : C) (w' : W).
        try_event projector event_type_name f settings backend m (s.retry_count + 1)
          (event, position) p' c'
          (backend.sleep (retry_delay f settings.event_retry_config (s.retry_count + 1)) w') in
      handle-Ends again event position rest s p w (projector.apply p.projector event position s.ctx)
        h go
        (retried again (event, position) rest s p w (omega arith) h
          (λ p' c'.
            event-Ends m (event, position) rest
              (record s { ctx = c'; retry_count = s.retry_count + 1 })
              (record p { projector = p'; phase = done })
              (backend.sleep (retry_delay f settings.event_retry_config (s.retry_count + 1)) w)
              (omega arith) h go))

  pub end_page-batch :
      (s : Processing E C) (p : ProjectionPipeline E C P)
      → settings.poll_mode ≡ batch
      → end_page projector settings s p ≡ (finished (ok tt), p)
  unfolding end_page
  end_page-batch s p b = rw b

  -- A page in batch mode, event by event.
  pub page-Ends : (rest : List (E × StreamPosition)) → settings.poll_mode ≡ batch → Goes rest
  unfolding process project_events
  page-Ends [] b s p w h fresh =
      rw (end_page-batch s p b)
        (finish-Ends projector event_type_name f settings backend (ok tt) p w)
  page-Ends (event ∷ rest) b s p w h fresh =
      let tried =
        event-Ends settings.event_retry_config.max_retry_attempts event rest s p w
          (rw (fresh, zero-add settings.event_retry_config.max_retry_attempts)) h
          (page-Ends rest b) in
      subst
        (λ k.
          Ends projector event_type_name f settings backend
            (process projector f settings (event ∷ rest) s p) w
            (Rest rest (
              try_event projector event_type_name f settings backend
                settings.event_retry_config.max_retry_attempts k event p.projector s.ctx w)))
        fresh tried
