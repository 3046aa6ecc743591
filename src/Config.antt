-- ===== src/Config.antt =====
-- config.rs: the configuration and its validation.
pub mod Validity
pub mod Env
pub mod Defaults
pub mod Settings
use Prim.Native.String.{len}
use rustpress_plugin_authpro.Base.{ℕ, String, Bool, ltb, if◌then◌else◌}
use rustpress_plugin_authpro.Base.Int.{ℤ, pos, leb_ℤ}
use rustpress_plugin_authpro.Error.{Outcome, ok, err, AuthError, config}

pub record AuthConfig : Type 0 where
  pub jwt_secret : String
  pub access_token_expiration : ℤ
  pub refresh_token_expiration : ℤ
  pub jwt_issuer : String
  pub jwt_audience : String
  pub argon2_memory_cost : ℕ
  pub argon2_time_cost : ℕ
  pub argon2_parallelism : ℕ
  pub max_login_attempts : ℤ
  pub lockout_duration : ℤ
  pub password_reset_expiration : ℤ
  pub email_verification_expiration : ℤ
  pub min_password_length : ℕ
  pub require_email_verification : Bool

-- `String::len` counts bytes.
unfoldable pub validate : AuthConfig → Outcome (Unit {0})
validate c =
    if ltb (len c.jwt_secret) 32
    then err (config "JWT_SECRET must be at least 32 characters")
    else if leb_ℤ c.access_token_expiration (pos 0)
    then err (config "JWT_ACCESS_EXPIRATION must be positive")
    else if leb_ℤ c.refresh_token_expiration c.access_token_expiration
    then err (config "JWT_REFRESH_EXPIRATION must be greater than JWT_ACCESS_EXPIRATION")
    else if ltb c.min_password_length 8
    then err (config "MIN_PASSWORD_LENGTH must be at least 8")
    else ok tt
