-- ===== src/Examples.antt =====
-- Runs of the model on concrete tables: an instance of the externals, a configuration, a user and
-- a refresh token, and the theorems of the library at these inputs.
pub mod Sessions
pub mod Lockouts
pub mod Resets
pub mod Requests
pub mod Journeys
pub mod Races
pub mod Crowds
pub mod Forgotten
pub mod Lifecycle
pub mod Limits
pub mod Routes
pub mod Keys
pub mod Traffic
pub mod Passwords
pub mod Verifications
use Prim.Native.String.{[], ◌∷◌}
use rustpress_plugin_authpro.Base.{
  ℕ, ◌+◌, ◌*◌, code, String, str_append, str_eq, Bool, true, false, Option, none, some, List, ◌∷◌,
  if◌then◌else◌,
}
use rustpress_plugin_authpro.Base.Int.{ℤ, pos, negsuc}
use rustpress_plugin_authpro.Text.{hex_u64}
use rustpress_plugin_authpro.Models.{Instant, User, RefreshToken, active}
use rustpress_plugin_authpro.Models.Roles.{user}
use rustpress_plugin_authpro.Models.Claims.{RefreshTokenClaims}
use rustpress_plugin_authpro.Config.{AuthConfig}
use rustpress_plugin_authpro.Externals.{Externals}
use rustpress_plugin_authpro.Db.{Db}
use rustpress_plugin_authpro.Exec.{World}

abbrev pub seconds_after : Instant → ℤ → Option Instant
seconds_after t (pos s) = some (t + s)
seconds_after t (negsuc s) = none

abbrev pub checksum : String → String → ℕ
checksum [] secret = 7
checksum (c ∷ s) secret = code c + 31 * checksum s secret

abbrev pub alice_claims : RefreshTokenClaims
alice_claims = record { sub = 1; tid = 7; iat = pos 900; exp = pos 5000; iss = "rustpress" }

abbrev pub decode_jwt : String → Option RefreshTokenClaims
decode_jwt s = if str_eq s "jwt" then some alice_claims else none

-- Each call of a clock, of the random bytes and of the identifiers gives another value.
abbrev pub world_outside : Externals
world_outside = record {
  utc_now = λ n. 1000 + n;
  db_now = λ n. 1000 + n;
  db_fault = λ n. none;
  new_uuid = λ n. 100 + n;
  random_bytes = λ n. n ∷ List.[];
  salt = λ n. "salt";
  add_seconds = seconds_after;
  db_add_seconds = seconds_after;
  timestamp = pos;
  params_valid = λ p. true;
  argon2_hash = λ p password salt. some (str_append password salt);
  hash_valid = λ h. true;
  argon2_verify = λ p password hash. str_eq (str_append password "salt") hash;
  encode_access = λ secret claims. some "access";
  encode_refresh = λ secret claims. some "jwt2";
  decode_access = λ secret v now s. none;
  decode_refresh = λ secret v now s. decode_jwt s;
  finish = checksum;
  is_uppercase = λ c. str_eq (c ∷ []) "A";
  is_lowercase = λ c. str_eq (c ∷ []) "a";
}

abbrev pub settings : AuthConfig
settings = record {
  jwt_secret = "an-example-secret-of-32-characters";
  access_token_expiration = pos 3600;
  refresh_token_expiration = pos 604800;
  jwt_issuer = "rustpress";
  jwt_audience = "rustpress-api";
  argon2_memory_cost = 65536;
  argon2_time_cost = 3;
  argon2_parallelism = 4;
  max_login_attempts = pos 2;
  lockout_duration = pos 900;
  password_reset_expiration = pos 3600;
  email_verification_expiration = pos 86400;
  min_password_length = 3;
  require_email_verification = false;
}

abbrev pub alice : User
alice = record {
  id = 1;
  email = "alice@example.org";
  password_hash = "Aa1salt";
  name = "Alice";
  role = user;
  status = active;
  avatar = none;
  bio = none;
  website = none;
  email_verified_at = none;
  last_login_at = none;
  last_login_ip = none;
  failed_login_attempts = pos 0;
  locked_until = none;
  password_changed_at = 0;
  created_at = 0;
  updated_at = 0;
}

-- The row of the refresh token "jwt.ab".
abbrev pub alice_token : RefreshToken
unfolding hex_u64
alice_token = record {
  id = 7;
  user_id = 1;
  token_hash = hex_u64 (checksum "ab" "");
  expires_at = 5000;
  issued_at = 900;
  revoked_at = none;
  replaced_by = none;
  user_agent = none;
  ip_address = none;
  created_at = 900;
}

abbrev pub tables : Db
tables = record {
  users = alice ∷ List.[];
  refresh_tokens = alice_token ∷ List.[];
  password_reset_tokens = List.[];
  email_verification_tokens = List.[];
}

abbrev pub start : World
start = record { db = tables; step = 0 }
