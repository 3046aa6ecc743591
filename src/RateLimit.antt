-- ===== src/RateLimit.antt =====
-- rate_limit.rs: the configuration of the limiter on the routes under /auth, and the interval at
-- which it gives a token back. The limiter itself is the crate tower_governor.
pub mod Interval
pub mod Answers
pub mod Applied
use rustpress_plugin_authpro.Base.{
  ℕ, ◌-◌, ◌/◌, ◌^◌, String, Bool, false, ◌||◌, Option, none, some, ltb, leb, ◌==◌, if◌then◌else◌,
}
use rustpress_plugin_authpro.Text.Parse.{parse_unsigned, lowercase_is}

pub record RateLimitConfig : Type 0 where
  pub per_minute : ℕ
  pub burst : ℕ
  pub disabled : Bool

abbrev pub or_default : Option ℕ → ℕ → ℕ
or_default none n = n
or_default (some m) n = m

-- `.filter(|v: &u32| *v > 0)`
abbrev pub above_zero : Option ℕ → Option ℕ
above_zero none = none
above_zero (some n) = if ltb 0 n then some n else none

-- `env::var(…).ok().and_then(|v| v.parse().ok())`, for a u32
abbrev pub parsed : Option String → Option ℕ
parsed none = none
parsed (some v) = parse_unsigned (2 ^ 32 - 1) v

abbrev is_yes : Option String → Bool
is_yes none = false
is_yes (some v) = lowercase_is v "true" || lowercase_is v "1" || lowercase_is v "yes"

-- The environment is a function, `none` for a variable that is not set.
unfoldable pub from_env : (String → Option String) → RateLimitConfig
from_env env = record {
  per_minute = or_default (above_zero (parsed (env "AUTHPRO_LOGIN_RATE_PER_MIN"))) 10;
  burst = or_default (above_zero (parsed (env "AUTHPRO_LOGIN_BURST"))) 5;
  disabled = is_yes (env "AUTHPRO_RATE_LIMIT_DISABLED");
}

abbrev pub default : RateLimitConfig
default = record { per_minute = 10; burst = 5; disabled = false }

abbrev max : ℕ → ℕ → ℕ
max a b = if leb a b then b else a

-- In milliseconds.
unfoldable pub replenish_interval : RateLimitConfig → ℕ
replenish_interval cfg = if cfg.per_minute == 0 then 60000 else max (60000 / max cfg.per_minute 1) 1
