-- ===== src/Projection/Loop.antt =====
-- The loop of `run`, effect by effect.
use native.Mathlib.Numerals.{unary_clauses}
use eventcore.Prelude.{
  ℕ, zero, suc, ◌+◌, ◌≤◌, ◌≡◌, refl, String, List, [], ◌∷◌, drop, true, false, Result, leb, arith,
}
use eventcore.Types.Query.{StreamPosition}
use eventcore.Projection.Projector.{Projector, Backend}
use eventcore.Projection.Pipeline.{
  Float, ProjectionError, ProjectionEffect, load_checkpoint, save_checkpoint, checkpoint_saved,
  checkpoint_loaded, ProjectionStep, yield_effect, finished, ProjectionPhase, ProjectionPipeline,
  Settings, at_phase, settle, resume,
}
use eventcore.Projection.Shell.{returned, dispatch, drive}
use eventcore.Projection.Reference.{save_position}

drop-suc {ℓ} :
    {A : Type ℓ} (i : ℕ) (xs : List A) (x : A) (rest : List A)
    → drop i xs ≡ x ∷ rest
    → drop (suc i) xs ≡ rest
drop-suc zero [] x rest h = absurd (cc)
drop-suc zero (y ∷ ys) x rest h = cc
drop-suc (suc i) [] x rest h = absurd (cc)
drop-suc (suc i) (y ∷ ys) x rest h = drop-suc i ys x rest h

pub drop_next {ℓ} :
    {A : Type ℓ} (i : ℕ) (xs : List A) (x : A) (rest : List A)
    → drop i xs ≡ x ∷ rest
    → drop (i + 1) xs ≡ rest
drop_next i xs x rest h = simp unary_clauses (drop-suc i xs x rest h)

pub leb-true : (a b : ℕ) → a ≤ b → leb a b ≡ true
leb-true a b h = ground arith

pub leb-false : (a b : ℕ) → b + 1 ≤ a → leb a b ≡ false
leb-false a b h = ground arith

module _ {E X C P F W : Type 0} (projector : Projector E X C P) (event_type_name : String)
    (f : Float F) (settings : Settings F) (backend : Backend E W) where
  -- From here the loop returns, on any fuel from some bound on.
  abbrev pub Ends :
      ProjectionStep × ProjectionPipeline E C P → W → Result (Unit {0}) ProjectionError × W → Type 0
  Ends o w r =
      (n : ℕ) × ((fuel : ℕ)
        → n ≤ fuel
        → drive projector event_type_name f settings backend fuel o.0 o.1 w ≡ (returned r.0, r.1))

  pub finish_drive :
      (x : Result (Unit {0}) ProjectionError) (p : ProjectionPipeline E C P) (w : W) (fuel : ℕ)
      → 1 ≤ fuel
      → drive projector event_type_name f settings backend fuel (finished x) p w ≡ (returned x, w)
  unfolding drive
  finish_drive x p w zero h = absurd (omega arith)
  finish_drive x p w (suc fuel) h = refl

  pub finish-Ends :
      (x : Result (Unit {0}) ProjectionError) (p : ProjectionPipeline E C P) (w : W)
      → Ends (finished x, p) w (x, w)
  finish-Ends x p w = (1, finish_drive x p w)

  pub yield_drive :
      (e : ProjectionEffect) (p : ProjectionPipeline E C P) (w : W)
      (r : Result (Unit {0}) ProjectionError × W)
      → (o : Ends
          (resume projector event_type_name f settings (dispatch settings backend e w).0 p)
          (dispatch settings backend e w).1
          r)
      → (fuel : ℕ) → o.0 + 1 ≤ fuel
      → drive projector event_type_name f settings backend fuel (yield_effect e) p w
        ≡ (returned r.0, r.1)
  unfolding drive
  yield_drive e p w r o zero l = absurd (omega arith)
  yield_drive e p w r o (suc fuel) l = o.1 fuel (omega arith)

  -- What the loop does after an effect, it does from before the effect.
  pub yield-Ends :
      (e : ProjectionEffect) (p : ProjectionPipeline E C P) (w : W)
      (r : Result (Unit {0}) ProjectionError × W)
      → Ends
          (resume projector event_type_name f settings (dispatch settings backend e w).0 p)
          (dispatch settings backend e w).1
          r
      → Ends (yield_effect e, p) w r
  yield-Ends e p w r o = (o.0 + 1, yield_drive e p w r o)

  pub settle_store :
      (a : ProjectionPhase E C) (position : StreamPosition) (p : ProjectionPipeline E C P)
      (o : ProjectionStep × ProjectionPipeline E C P)
      → settings.has_checkpoint_store ≡ true
      → settle projector settings a position p o
        ≡ (yield_effect (save_checkpoint (projector.name p.projector) position), at_phase p a)
  unfolding settle
  settle_store a position p o h = simp h

  pub settle_bare :
      (a : ProjectionPhase E C) (position : StreamPosition) (p : ProjectionPipeline E C P)
      (o : ProjectionStep × ProjectionPipeline E C P)
      → settings.has_checkpoint_store ≡ false
      → settle projector settings a position p o ≡ o
  unfolding settle
  settle_bare a position p o h = simp h

  pub save_store :
      (position : StreamPosition) (p : P) (w : W)
      → settings.has_checkpoint_store ≡ true
      → save_position projector event_type_name f settings backend position p w
        ≡ (backend.save (projector.name p) position w).1
  unfolding save_position
  save_store position p w h = simp h

  pub save_bare :
      (position : StreamPosition) (p : P) (w : W)
      → settings.has_checkpoint_store ≡ false
      → save_position projector event_type_name f settings backend position p w ≡ w
  unfolding save_position
  save_bare position p w h = simp h

  pub dispatch_save :
      (name : String) (position : StreamPosition) (w : W)
      → settings.has_checkpoint_store ≡ true
      → dispatch settings backend (save_checkpoint name position) w
        ≡ (checkpoint_saved (backend.save name position w).0, (backend.save name position w).1)
  unfolding dispatch
  dispatch_save name position w h = simp h

  pub dispatch_load :
      (name : String) (w : W)
      → settings.has_checkpoint_store ≡ true
      → dispatch settings backend (load_checkpoint name) w
        ≡ (checkpoint_loaded (backend.load name w).0, (backend.load name w).1)
  unfolding dispatch
  dispatch_load name w h = simp h
