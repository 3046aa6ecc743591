-- ===== src/RateLimit/Applied.antt =====
-- When a limiter stands before the routes, and which.
use rustpress_plugin_authpro.Base.{
  ℕ, ◌+◌, ◌*◌, ◌^◌, ◌≡◌, ◌≤◌, ◌<◌, String, Bool, false, true, Option, arith,
}
use rustpress_plugin_authpro.RateLimit.{RateLimitConfig, from_env, replenish_interval}
use rustpress_plugin_authpro.RateLimit.Answers.{governed, apply_auth_rate_limit}
use rustpress_plugin_authpro.RateLimit.Interval.{replenish_interval_lem, from_env-bounds}

-- The period of the limiter is from a millisecond to a minute, and as long as the rate allows: as
-- many periods as the rate asks for fit into a minute, and would not if each were a millisecond
-- longer. The burst is 1 or more, and a u32.
pub record Governs (cfg : RateLimitConfig) (period burst : ℕ) : Type 0 where
  pub at_least : 1 ≤ period
  pub at_most : period ≤ 60000
  pub fits : period * cfg.per_minute ≤ 60000
  pub longest : 60000 < (period + 1) * cfg.per_minute
  pub some_burst : 1 ≤ burst
  pub u32_burst : burst < 2 ^ 32

enabled-governed :
    (finish : ℕ → ℕ → Bool) (cfg : RateLimitConfig)
    → cfg.disabled ≡ false
    → finish (replenish_interval cfg) cfg.burst ≡ true
    → apply_auth_rate_limit finish cfg ≡ governed (replenish_interval cfg) cfg.burst
unfolding apply_auth_rate_limit
enabled-governed finish cfg enabled accepted = ground arith

-- The limiter is never skipped for a bad configuration: where tower_governor accepts each period and
-- each burst above zero, and the environment neither disables the limiter nor asks for more than
-- 60000 requests a minute, a limiter is put before the routes. Its period is from a millisecond to a
-- minute, and the longest that lets as many requests through a minute as the environment asks for;
-- its burst is 1 or more, and a u32.
pub apply_auth_rate_limit-Governs :
    (finish : ℕ → ℕ → Bool) (env : String → Option String)
    → ((period burst : ℕ) → 1 ≤ period → 1 ≤ burst → finish period burst ≡ true)
    → (from_env env).disabled ≡ false
    → (from_env env).per_minute ≤ 60000
    → (apply_auth_rate_limit finish (from_env env)
        ≡ governed (replenish_interval (from_env env)) (from_env env).burst)
      × Governs (from_env env) (replenish_interval (from_env env)) (from_env env).burst
apply_auth_rate_limit-Governs finish env accepts enabled rate =
    let cfg : RateLimitConfig = from_env env in
    let (some_rate, _, some_burst, u32_burst) = from_env-bounds env in
    let (at_least, at_most, exact) = replenish_interval_lem cfg in
    let (fits, longest) = exact some_rate rate in
    let accepted = accepts (replenish_interval cfg) cfg.burst at_least some_burst in
    (
      enabled-governed finish cfg enabled accepted,
      record {
        at_least = at_least;
        at_most = at_most;
        fits = fits;
        longest = longest;
        some_burst = some_burst;
        u32_burst = u32_burst;
      },
    )
