-- ===== src/Config/Env.antt =====
-- `AuthConfig::from_env` of config.rs. The environment is a function, `none` for a variable that is
-- not set or is not Unicode.
use rustpress_plugin_authpro.Base.{ℕ, ◌-◌, ◌^◌, String, Bool, false, Option, none, some}
use rustpress_plugin_authpro.Base.Int.{ℤ, pos}
use rustpress_plugin_authpro.Text.Parse.{parse_unsigned, parse_signed, lowercase_is}
use rustpress_plugin_authpro.Error.{Outcome, ok, panic}
use rustpress_plugin_authpro.Config.{AuthConfig}

abbrev pub text_or : Option String → String → String
text_or none s = s
text_or (some v) s = v

abbrev unwrap_or : {A : Type 0} → Option A → A → A
unwrap_or none a = a
unwrap_or (some b) a = b

-- `.ok().and_then(|v| v.parse().ok()).unwrap_or(n)`
abbrev signed_or : ℕ → Option String → ℤ → ℤ
signed_or max none n = n
signed_or max (some v) n = unwrap_or (parse_signed max v) n

abbrev unsigned_or : ℕ → Option String → ℕ → ℕ
unsigned_or max none n = n
unsigned_or max (some v) n = unwrap_or (parse_unsigned max v) n

abbrev is_true : Option String → Bool
is_true none = false
is_true (some v) = lowercase_is v "true"

-- The fields after the secret.
unfoldable pub with_secret : String → (String → Option String) → AuthConfig
with_secret secret env = record {
  jwt_secret = secret;
  access_token_expiration = signed_or (2 ^ 63 - 1) (env "JWT_ACCESS_EXPIRATION") (pos 900);
  refresh_token_expiration = signed_or (2 ^ 63 - 1) (env "JWT_REFRESH_EXPIRATION") (pos 604800);
  jwt_issuer = text_or (env "JWT_ISSUER") "rustpress";
  jwt_audience = text_or (env "JWT_AUDIENCE") "rustpress-api";
  argon2_memory_cost = unsigned_or (2 ^ 32 - 1) (env "ARGON2_MEMORY_COST") 65536;
  argon2_time_cost = unsigned_or (2 ^ 32 - 1) (env "ARGON2_TIME_COST") 3;
  argon2_parallelism = unsigned_or (2 ^ 32 - 1) (env "ARGON2_PARALLELISM") 4;
  max_login_attempts = signed_or (2 ^ 31 - 1) (env "MAX_LOGIN_ATTEMPTS") (pos 5);
  lockout_duration = signed_or (2 ^ 63 - 1) (env "LOCKOUT_DURATION") (pos 900);
  password_reset_expiration = signed_or (2 ^ 63 - 1) (env "PASSWORD_RESET_EXPIRATION") (pos 3600);
  email_verification_expiration =
      signed_or (2 ^ 63 - 1) (env "EMAIL_VERIFICATION_EXPIRATION") (pos 86400);
  min_password_length = unsigned_or (2 ^ 64 - 1) (env "MIN_PASSWORD_LENGTH") 8;
  require_email_verification = is_true (env "REQUIRE_EMAIL_VERIFICATION");
}

-- `.expect(…)` on the secret
unfoldable pub from_env : (String → Option String) → Outcome AuthConfig
unfolding with_secret
from_env env = elim (env "JWT_SECRET") [
  | none ↦ panic "JWT_SECRET environment variable must be set"
  | some secret ↦ ok (with_secret secret env)
]
