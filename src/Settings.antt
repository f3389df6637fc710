-- ===== src/Settings.antt =====
-- src/notify_queue/config.py: the settings that the modelled code reads, in microseconds where they are
-- seconds. Reading them from the environment belongs to pydantic.
use notify_queue.Prelude.{ℕ, ◌+◌, String, Bool, ltb}

pub data RateLimitBackend : Type 0 where
  redis postgres : RateLimitBackend

pub record Settings : Type 0 where
  pub db_pool_timeout : ℕ
  pub cache_enabled : Bool
  pub worker_concurrency : ℕ
  pub batch_size : ℕ
  pub poll_interval : ℕ
  pub lease_seconds : ℕ
  pub send_timeout_seconds : ℕ
  pub lease_safety_margin_seconds : ℕ
  pub reaper_interval : ℕ
  pub reaper_batch_size : ℕ
  pub max_attempts : ℕ
  pub backoff_base_seconds : ℕ
  pub backoff_cap_seconds : ℕ
  pub rate_limit_per_hour : ℕ
  pub rate_limit_window_seconds : ℕ
  pub rate_limit_backend : RateLimitBackend
  pub webhook_batch_size : ℕ
  pub webhook_poll_interval : ℕ
  pub webhook_timeout_seconds : ℕ
  pub webhook_max_attempts : ℕ
  pub default_callback_url : String

-- Lease time that must remain before a send may start.
abbrev pub send_budget_seconds : Settings → ℕ
send_budget_seconds s = s.send_timeout_seconds + s.db_pool_timeout + s.lease_safety_margin_seconds

-- The validator `_lease_fits_send_budget`: false raises.
unfoldable pub lease_fits_send_budget : Settings → Bool
lease_fits_send_budget s = ltb (send_budget_seconds s) s.lease_seconds
