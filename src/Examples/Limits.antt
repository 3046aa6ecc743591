-- ===== src/Examples/Limits.antt =====
-- The limiter of an environment that sets its rate.
use rustpress_plugin_authpro.Base.{
  ℕ, ◌≡◌, refl, String, str_eq, Bool, Option, none, some, if◌then◌else◌, ltb, ◌&&◌, arith,
}
use rustpress_plugin_authpro.Text.Parse.{parse_unsigned}
use rustpress_plugin_authpro.RateLimit.{from_env, replenish_interval}
use rustpress_plugin_authpro.RateLimit.Answers.{governed, apply_auth_rate_limit}
use rustpress_plugin_authpro.RateLimit.Applied.{Governs, apply_auth_rate_limit-Governs}

abbrev finish : ℕ → ℕ → Bool
finish period burst = ltb 0 period && ltb 0 burst

abbrev environment : String → Option String
environment name = if str_eq name "AUTHPRO_LOGIN_RATE_PER_MIN" then some "7" else none

apply_auth_rate_limit-Governs_example :
    (apply_auth_rate_limit finish (from_env environment) ≡ governed 8571 5)
    × Governs (from_env environment) 8571 5
unfolding from_env replenish_interval parse_unsigned
apply_auth_rate_limit-Governs_example =
    apply_auth_rate_limit-Governs finish environment (λ period burst low some_burst. ground arith)
      refl (omega arith)
