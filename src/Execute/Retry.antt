-- ===== src/Execute/Retry.antt =====
-- The retry policy and the backoff of eventcore/src/lib.rs.
use eventcore.Prelude.{ℕ, ◌-◌, ◌*◌, ◌^◌, List, Option, none, some, Bool, false, ltb, if◌then◌else◌}
use eventcore.Types.Error.{StreamId}

abbrev pub u64_mod : ℕ
u64_mod = 2 ^ 64

-- The part of `f64` that the jitter uses. `to_u64` is the cast, which saturates.
pub record Float (F : Type 0) : Type 0 where
  pub of_u64 : ℕ → F
  pub to_u64 : F → ℕ
  pub add : F → F → F
  pub sub : F → F → F
  pub mul : F → F → F
  pub one : F
  pub half : F
  pub two_fifths : F

pub data BackoffStrategy : Type 0 where
  fixed : ℕ → BackoffStrategy
  exponential : ℕ → BackoffStrategy

-- What a metrics hook is told before a retry.
pub record RetryContext : Type 0 where
  pub streams : List StreamId
  pub attempt : ℕ
  pub delay_ms : ℕ

-- `metrics_hook` tells whether a hook is set.
pub record RetryPolicy : Type 0 where
  pub max_retries : ℕ
  pub backoff_strategy : BackoffStrategy
  pub metrics_hook : Bool

-- `RetryPolicy::new`
unfoldable pub default_policy : RetryPolicy
default_policy = record { max_retries = 4; backoff_strategy = exponential 10; metrics_hook = false }

unfoldable pub max_retries : RetryPolicy → ℕ → RetryPolicy
max_retries policy retries = record policy { max_retries = retries }

unfoldable pub backoff_strategy : RetryPolicy → BackoffStrategy → RetryPolicy
backoff_strategy policy strategy = record policy { backoff_strategy = strategy }

-- `u64::checked_pow` at base 2, and `u64::checked_mul`
abbrev checked : ℕ → Option ℕ
checked n = if ltb n u64_mod then some n else none

-- The delay before the jitter, which saturates at `u64::MAX`.
unfoldable pub base_delay : ℕ → ℕ → ℕ
base_delay base_ms attempt = elim (checked (2 ^ attempt)) [
  | none ↦ u64_mod - 1
  | some exp ↦ elim (checked (base_ms * exp)) [ none ↦ u64_mod - 1 | some delay ↦ delay ]
]

module _ {F : Type 0} (f : Float F) where
  unfoldable pub calculate_jitter_factor : F → F
  calculate_jitter_factor random_value =
      f.add f.one (f.mul (f.sub random_value f.half) f.two_fifths)

  unfoldable pub apply_jitter : ℕ → F → ℕ
  apply_jitter base jitter_factor = f.to_u64 (f.mul (f.of_u64 base) jitter_factor)

  -- `random_value` is what `rand::random` returns in this call.
  unfoldable pub compute_retry_delay_ms : BackoffStrategy → ℕ → F → ℕ
  compute_retry_delay_ms (fixed delay_ms) attempt random_value = delay_ms
  compute_retry_delay_ms (exponential base_ms) attempt random_value =
      apply_jitter (base_delay base_ms attempt) (calculate_jitter_factor random_value)
