-- ===== src/Service/Password.antt =====
-- The section "Password Hashing" of service.rs.
pub mod Returned
pub mod Verifies
pub mod Stored
use Prim.Native.String.{len}
use rustpress_plugin_authpro.Base.{String, Bool, not, ◌||◌, ltb, if◌then◌else◌}
use rustpress_plugin_authpro.Text.{any_char, is_ascii_digit}
use rustpress_plugin_authpro.Error.{Outcome, ok, err, ok_or, AuthError, internal, weak_password}
use rustpress_plugin_authpro.Config.{AuthConfig}
use rustpress_plugin_authpro.Externals.{Externals, Argon2Params}
use rustpress_plugin_authpro.Exec.{Exec, lift, draw, ◌>>=◌}

module _ (x : Externals) (c : AuthConfig) where
  abbrev pub params : Argon2Params
  params = record {
    memory_cost = c.argon2_memory_cost;
    time_cost = c.argon2_time_cost;
    parallelism = c.argon2_parallelism;
  }

  unfoldable pub hash_with_salt : String → String → Outcome String
  hash_with_salt password salt =
      if x.params_valid params
      then ok_or (x.argon2_hash params password salt) internal
      else err internal

  unfoldable pub hash_password : String → Exec String
  unfolding hash_with_salt
  hash_password password = do salt ← draw x.salt; lift (hash_with_salt password salt)

  unfoldable pub verify_password : String → String → Outcome Bool
  verify_password password hash =
      if not (x.hash_valid hash)
      then err internal
      else if not (x.params_valid params)
      then err internal
      else ok (x.argon2_verify params password hash)

  unfoldable pub validate_password : String → Outcome (Unit {0})
  validate_password password =
      if ltb (len password) c.min_password_length
      then err weak_password
      else if not has_upper || not has_lower || not has_digit
      then err weak_password
      else ok tt
    where
      has_upper : Bool
      has_upper = any_char x.is_uppercase password

      has_lower : Bool
      has_lower = any_char x.is_lowercase password

      has_digit : Bool
      has_digit = any_char is_ascii_digit password
