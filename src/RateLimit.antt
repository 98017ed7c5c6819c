-- ===== src/RateLimit.antt =====
-- `AllowFixedWindow` of server/internal/integrations/redis/cache.go, by which the API limits the rate of
-- requests. The client is configured and the context is not nil.
pub mod Window
mod Examples
use monogo.Base.{ℕ, ◌/◌, Bool, true, false, not, Text, is_empty, ◌==◌, ltb, leb, if◌then◌else◌}
use monogo.Errors.{plain, wrapped}
use monogo.Effects.{M, ◌>>=◌, ◌>>◌, guard, map_error}
use monogo.Redis.{Redis}
use monogo.Calling.Leases.{eval}

module _ (r : Redis) where
  open r use {Keyspace, incr, pexpire}

  pub window_script : Text → ℕ → ℕ → Keyspace → Bool × Keyspace
  window_script key limit window db =
      let (current, db') = incr key db in
      (leb current limit, if current == 1 then pexpire key window db' else db')

  module _ {D : Type 0} where
    -- `window` counts nanoseconds, what the script gets of it whole milliseconds: 0 below one.
    pub allow_fixed_window : Text → ℕ → ℕ → M D Keyspace Bool
    allow_fixed_window key limit window = do
      guard (not (is_empty key)) (plain "redis key is required")
      guard (ltb 0 limit) (plain "rate limit must be positive")
      guard (ltb 0 window) (plain "rate limit window must be positive")
      map_error (wrapped "apply Redis fixed-window rate limit")
          (eval r (λ now db. window_script key limit (window / 1_000_000) db))
