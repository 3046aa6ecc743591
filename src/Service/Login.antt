-- ===== src/Service/Login.antt =====
-- `login` of service.rs.
pub mod Lockout
pub mod Guessing
pub mod Race
pub mod Machine
pub mod Branches
pub mod SamePerson
pub mod Refinement
pub mod Runs
pub mod Success
pub mod Complete
use rustpress_plugin_authpro.Base.{String, Bool, true, false, not, ◌&&◌, Option, if◌then◌else◌}
use rustpress_plugin_authpro.Error.{
  AuthError, err, ok_or, invalid_credentials, account_locked, account_not_active,
  email_not_verified,
}
use rustpress_plugin_authpro.Models.{User, is_active, is_locked, is_email_verified}
use rustpress_plugin_authpro.Models.Requests.{LoginRequest}
use rustpress_plugin_authpro.Models.Responses.{AuthResponse, from_user}
use rustpress_plugin_authpro.Config.{AuthConfig}
use rustpress_plugin_authpro.Externals.{Externals}
use rustpress_plugin_authpro.Db.Users.{select_user_by_email}
use rustpress_plugin_authpro.Exec.{Exec, pure, lift, draw, fail_if, run_sql, ◌>>=◌, ◌>>◌}
use rustpress_plugin_authpro.Service.Password.{verify_password}
use rustpress_plugin_authpro.Service.Token.{generate_access_token, generate_refresh_token}
use rustpress_plugin_authpro.Service.Account.{increment_failed_attempts, record_successful_login}

module _ (x : Externals) (c : AuthConfig) where
  -- The branch of a wrong password.
  unfoldable pub check_password : User → Bool → Exec (Unit {0})
  check_password user true = pure tt
  check_password user false = do
    increment_failed_attempts x c user.id
    lift (err invalid_credentials)

  -- From the successful login on.
  unfoldable pub open_session : User → Option String → Option String → Exec AuthResponse
  open_session user ip_address user_agent = do
    record_successful_login x user.id ip_address
    access_token ← generate_access_token x c user
    refresh_token ← generate_refresh_token x c user.id ip_address user_agent
    pure (record {
      user = from_user user;
      access_token = access_token;
      refresh_token = refresh_token;
      token_type = "Bearer";
      expires_in = c.access_token_expiration;
    })

  -- The checks on the user that was found, and the rest.
  unfoldable pub login_as : LoginRequest → Option String → Option String → User → Exec AuthResponse
  login_as req ip_address user_agent user = do
    now ← draw x.utc_now
    fail_if (is_locked user now) account_locked
    fail_if (not (is_active user.status)) account_not_active
    verified ← lift (verify_password x c req.password user.password_hash)
    check_password user verified
    fail_if (c.require_email_verification && not (is_email_verified user)) email_not_verified
    open_session user ip_address user_agent

  unfoldable pub login : LoginRequest → Option String → Option String → Exec AuthResponse
  login req ip_address user_agent = do
    found ← run_sql x (select_user_by_email req.email)
    user ← lift (ok_or found invalid_credentials)
    login_as req ip_address user_agent user
