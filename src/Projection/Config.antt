-- ===== src/Projection/Config.antt =====
-- The configuration of a projection: eventcore/src/projection.rs.
use eventcore.Prelude.{ℕ, Bool, true, false, if◌then◌else◌}
use eventcore.Projection.Projector.{Duration, from_millis}

pub data PollMode : Type 0 where
  batch continuous : PollMode

-- `max_consecutive_poll_failures` is a `NonZeroU32`.
pub record PollConfig : Type 0 where
  pub poll_interval : Duration
  pub empty_poll_backoff : Duration
  pub poll_failure_backoff : Duration
  pub max_consecutive_poll_failures : ℕ

-- The multiplier is a float of at least 1.
pub record EventRetryConfig (F : Type 0) : Type 0 where
  pub max_retry_attempts : ℕ
  pub retry_delay : Duration
  pub retry_backoff_multiplier : F
  pub max_retry_delay : Duration

pub record ProjectionConfig (F : Type 0) : Type 0 where
  pub continuous : Bool
  pub poll_interval : Duration
  pub empty_poll_backoff : Duration
  pub poll_failure_backoff : Duration
  pub max_consecutive_poll_failures : ℕ
  pub event_retry_max_attempts : ℕ
  pub event_retry_delay : Duration
  pub event_retry_backoff_multiplier : F
  pub event_retry_max_delay : Duration

-- `PollConfig::default`
unfoldable pub default_poll_config : PollConfig
default_poll_config = record {
  poll_interval = from_millis 100;
  empty_poll_backoff = from_millis 50;
  poll_failure_backoff = from_millis 100;
  max_consecutive_poll_failures = 5;
}

module _ {F : Type 0} where
  -- `EventRetryConfig::default`; `two` is the multiplier 2.0.
  unfoldable pub default_retry_config : F → EventRetryConfig F
  default_retry_config two = record {
    max_retry_attempts = 3;
    retry_delay = from_millis 100;
    retry_backoff_multiplier = two;
    max_retry_delay = from_millis 5000;
  }

  -- `ProjectionConfig::default`
  unfoldable pub default_config : F → ProjectionConfig F
  unfolding default_poll_config default_retry_config
  default_config two = record {
    continuous = false;
    poll_interval = default_poll_config.poll_interval;
    empty_poll_backoff = default_poll_config.empty_poll_backoff;
    poll_failure_backoff = default_poll_config.poll_failure_backoff;
    max_consecutive_poll_failures = default_poll_config.max_consecutive_poll_failures;
    event_retry_max_attempts = (default_retry_config two).max_retry_attempts;
    event_retry_delay = (default_retry_config two).retry_delay;
    event_retry_backoff_multiplier = (default_retry_config two).retry_backoff_multiplier;
    event_retry_max_delay = (default_retry_config two).max_retry_delay;
  }

  -- The builders, in the order of the source.
  unfoldable pub with_continuous : ProjectionConfig F → ProjectionConfig F
  with_continuous config = record config { continuous = true }

  unfoldable pub with_poll_interval : ProjectionConfig F → Duration → ProjectionConfig F
  with_poll_interval config interval = record config { poll_interval = interval }

  unfoldable pub with_empty_poll_backoff : ProjectionConfig F → Duration → ProjectionConfig F
  with_empty_poll_backoff config backoff = record config { empty_poll_backoff = backoff }

  unfoldable pub with_poll_failure_backoff : ProjectionConfig F → Duration → ProjectionConfig F
  with_poll_failure_backoff config backoff = record config { poll_failure_backoff = backoff }

  unfoldable pub with_max_consecutive_poll_failures : ProjectionConfig F → ℕ → ProjectionConfig F
  with_max_consecutive_poll_failures config max = record config {
    max_consecutive_poll_failures = max;
  }

  unfoldable pub with_event_retry_max_attempts : ProjectionConfig F → ℕ → ProjectionConfig F
  with_event_retry_max_attempts config max = record config { event_retry_max_attempts = max }

  unfoldable pub with_event_retry_delay : ProjectionConfig F → Duration → ProjectionConfig F
  with_event_retry_delay config delay = record config { event_retry_delay = delay }

  unfoldable pub with_event_retry_backoff_multiplier : ProjectionConfig F → F → ProjectionConfig F
  with_event_retry_backoff_multiplier config multiplier = record config {
    event_retry_backoff_multiplier = multiplier;
  }

  unfoldable pub with_event_retry_max_delay : ProjectionConfig F → Duration → ProjectionConfig F
  with_event_retry_max_delay config max_delay = record config { event_retry_max_delay = max_delay }

  unfoldable pub to_poll_config : ProjectionConfig F → PollConfig
  to_poll_config config = record {
    poll_interval = config.poll_interval;
    empty_poll_backoff = config.empty_poll_backoff;
    poll_failure_backoff = config.poll_failure_backoff;
    max_consecutive_poll_failures = config.max_consecutive_poll_failures;
  }

  unfoldable pub to_event_retry_config : ProjectionConfig F → EventRetryConfig F
  to_event_retry_config config = record {
    max_retry_attempts = config.event_retry_max_attempts;
    retry_delay = config.event_retry_delay;
    retry_backoff_multiplier = config.event_retry_backoff_multiplier;
    max_retry_delay = config.event_retry_max_delay;
  }

  unfoldable pub to_poll_mode : ProjectionConfig F → PollMode
  to_poll_mode config = if config.continuous then continuous else batch
