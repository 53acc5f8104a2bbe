-- ===== src/Projection/Projector.antt =====
-- The trait `Projector` of eventcore-types/src/projection.rs, and the stores that a projection works
-- with.
use eventcore.Prelude.{ℕ, ◌*◌, String, List, Option, Result}
use eventcore.Types.Query.{StreamPosition, EventPage, EventFilter, FailureStrategy}

-- A span of time, in nanoseconds.
abbrev pub Duration : Type 0
Duration = ℕ

abbrev pub from_millis : ℕ → Duration
from_millis ms = ms * 1000000

pub record FailureContext (X : Type 0) : Type 0 where
  pub error : X
  pub position : StreamPosition
  pub retry_count : ℕ

-- A projector with state `P`, events `E`, errors `X` and contexts `C`. A method that takes its
-- projector or its context by mutable reference returns what it leaves there.
pub record Projector (E X C P : Type 0) : Type 0 where
  pub apply : P → E → StreamPosition → C → Result (Unit {0}) X × P × C
  pub name : P → String
  pub on_error : P → FailureContext X → FailureStrategy × P
  pub default_context : C

-- The event reader and the checkpoint store of a projection, in a world `W`. An error is its text.
pub record Backend (E W : Type 0) : Type 0 where
  pub read_events : EventFilter → EventPage → W → Result (List (E × StreamPosition)) String × W
  pub load : String → W → Result (Option StreamPosition) String × W
  pub save : String → StreamPosition → W → Result (Unit {0}) String × W
  pub sleep : Duration → W → W
