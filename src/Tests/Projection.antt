-- ===== src/Tests/Projection.antt =====
-- A projector that adds up amounts, over a list of events.
use eventcore.Prelude.{
  ℕ, ◌+◌, ◌-◌, ◌*◌, ◌^◌, ◌≡◌, refl, String, List, [], ◌∷◌, ◌++◌, none, ok, err, eqb, ltb,
  if◌then◌else◌, Result,
}
use eventcore.Types.Query.{StreamPosition, skip, retry}
use eventcore.Projection.Projector.{Projector, Backend}
use eventcore.Projection.Config.{
  default_config, default_poll_config, default_retry_config, to_poll_mode, to_poll_config,
  to_event_retry_config,
}
use eventcore.Projection.Pipeline.{Float, Settings, retry_delay}
use eventcore.Projection.Shell.{returned, run, config_settings}
use eventcore.Projection.Reference.{
  project, poll, after_load, after_read, project_events, try_event, judge, answer, save_position,
  then_go_on,
}
use eventcore.Projection.Refinement.{run-eq-project, led_project}

-- The events, the reads that will fail yet, the positions that were saved, and whether the
-- projection is led.
record Ledger : Type 0 where
  events : List (ℕ × StreamPosition)
  failing : ℕ
  saved : List StreamPosition
  led : ℕ

abbrev ledger : Backend ℕ Ledger
ledger = record {
  read_events = λ filter page w.
      if eqb w.failing 0
      then (ok w.events, w)
      else (err "busy", record w { failing = w.failing - 1 });
  load = λ name w. (ok none, w);
  save = λ name position w. (ok tt, record w { saved = w.saved ++ position ∷ [] });
  sleep = λ duration w. w;
}

-- An amount of 0 is skipped. An amount of 9 fails twice; the context counts the failures.
abbrev adder : Projector ℕ ℕ ℕ ℕ
adder = record {
  apply = λ p e position c.
      if eqb e 0
      then (err 0, p, c)
      else if eqb e 9
      then (if ltb c 2 then (err 9, p, c + 1) else (ok tt, p + e, c))
      else (ok tt, p + e, c);
  name = λ p. "adder";
  on_error = λ p ctx. if eqb ctx.error 0 then (skip, p) else (retry, p);
  default_context = 0;
}

abbrev whole : Float ℕ
whole = record { of_u128 = λ n. n; to_u64 = λ x. x; mul = λ x y. x * y; powi = λ x n. x ^ n }

abbrev three_events : Ledger
three_events = record { events = (5, 1) ∷ (0, 2) ∷ (9, 3) ∷ []; failing = 2; saved = []; led = 0 }

abbrev settings : Settings ℕ
settings = config_settings (default_config 2)

reference_saves :
    project adder "Added" whole settings ledger 0 three_events
    ≡ (ok tt, record three_events { failing = 0; saved = 1 ∷ 2 ∷ 3 ∷ [] })
unfolding project poll after_load after_read project_events try_event judge answer save_position
    then_go_on config_settings default_config to_poll_config to_event_retry_config
    default_poll_config default_retry_config retry_delay
reference_saves = refl

run-eq-project_example :
    (n : ℕ) × ((extra : ℕ)
      → run adder "Added" whole settings ledger (n + extra) 0 three_events ≡ (
        returned (project adder "Added" whole settings ledger 0 three_events).0,
        (project adder "Added" whole settings ledger 0 three_events).1,
      ))
run-eq-project_example =
    run-eq-project adder "Added" whole settings ledger 0 three_events
      (unfold config_settings default_config to_poll_mode in refl)

-- One instance at a time may lead.
abbrev acquire : String → Ledger → Result ℕ String × Ledger
acquire name w = if eqb w.led 0 then (ok 7, record w { led = 1 }) else (err "led", w)

abbrev release : ℕ → Ledger → Ledger
release guard w = record w { led = 0 }

led_saves :
    led_project adder "Added" whole ledger acquire release
      (default_config 2)
      0
      (acquire "adder" three_events)
    ≡ (ok tt, record three_events { failing = 0; saved = 1 ∷ 2 ∷ 3 ∷ [] })
unfolding project poll after_load after_read project_events try_event judge answer save_position
    then_go_on config_settings default_config to_poll_config to_event_retry_config
    default_poll_config default_retry_config retry_delay
led_saves = refl
