-- ===== src/Tests/Bank.antt =====
-- A small bank: an account is a stream, and an event is an account with an amount.
use eventcore.Prelude.{ℕ, ◌+◌, ◌-◌, ◌*◌, String, [], ◌∷◌, none, some, ok, true}
use Prim.Native.Nat.{◌/◌}
use eventcore.Types.Event.{Event}
use eventcore.Types.Writes.{StreamWrites, entry_of}
use eventcore.Types.Query.{StreamPosition}
use eventcore.Memory.Store
use eventcore.Memory.Store.{InMemoryEventStore}
use eventcore.Execute.Interface.{CommandLogic}
use eventcore.Execute.Retry.{Float, RetryPolicy, exponential}

abbrev pub Deposit : Type 0
Deposit = String × ℕ

abbrev pub deposit : Event Deposit Deposit
deposit = record {
  stream_id = λ e. e.0;
  event_type_name = "Deposited";
  to_raw_value = λ e. ok e.0;
  from_str = λ s. some (s, 0);
  boxed = λ e. e;
  downcast_ref = λ e. some e;
  type_name = "Deposit";
}

-- A batch of one deposit, for an account at a known version.
abbrev pub one_deposit : String → ℕ → ℕ → StreamWrites Deposit
one_deposit account version amount = record {
  entries = entry_of deposit (account, amount) account ∷ [];
  expected_versions = (account, version) ∷ [];
}

abbrev pub bank : InMemoryEventStore Deposit ℕ
bank = Store.new

-- The identifiers 1, 2, 3, and so on.
abbrev pub clock : ℕ → StreamPosition
clock i = i + 1

-- Adds up what `a` and `b` hold, and deposits one more than that in `a`. `b` is discovered.
abbrev pub sweep : CommandLogic Deposit ℕ ℕ
sweep = record {
  stream_declarations = record { streams = "a" ∷ [] };
  initial = 0;
  apply = λ s e. s + e.1;
  handle = λ s. ok (("a", s + 1) ∷ []);
  stream_resolver = some (λ s. "b" ∷ "a" ∷ []);
  command_state_snapshot_id = none;
  serialize_command_state_snapshot = λ s. ok s;
  deserialize_command_state_snapshot = λ v. ok v;
}

-- Floats as whole tenths.
abbrev pub tenths : Float ℕ
tenths = record {
  of_u64 = λ n. 10 * n;
  to_u64 = λ x. x / 10;
  add = λ x y. x + y;
  sub = λ x y. x - y;
  mul = λ x y. x * y / 10;
  one = 10;
  half = 5;
  two_fifths = 4;
}

abbrev pub policy : RetryPolicy
policy = record { max_retries = 4; backoff_strategy = exponential 10; metrics_hook = true }
