-- ===== src/Service/Account.antt =====
-- Registration, the lookups of users, `increment_failed_attempts`, `record_successful_login` and
-- `change_password` of service.rs.
pub mod Returned
pub mod Registered
pub mod Others
pub mod FirstLogin
pub mod Race
use rustpress_plugin_authpro.Base.{String, Bool, Option, none, some, is_some, not}
use rustpress_plugin_authpro.Error.{
  Outcome, ok_or, invalid_credentials, user_not_found, email_exists,
}
use rustpress_plugin_authpro.Models.{Uuid, Instant, User}
use rustpress_plugin_authpro.Models.Requests.{RegisterRequest, ChangePasswordRequest}
use rustpress_plugin_authpro.Config.{AuthConfig}
use rustpress_plugin_authpro.Externals.{Externals}
use rustpress_plugin_authpro.Db.Users.{
  select_user_by_email, select_user, insert_user, record_failure, record_success, set_password,
}
use rustpress_plugin_authpro.Db.RefreshTokens.{revoke_user_tokens}
use rustpress_plugin_authpro.Exec.{Exec, World, pure, lift, draw, fail_if, run_sql, ◌>>=◌, ◌>>◌}
use rustpress_plugin_authpro.Service.Password.{hash_password, verify_password, validate_password}

module _ (x : Externals) where
  unfoldable pub get_user : Uuid → Exec (Option User)
  get_user id = run_sql x (select_user id)

  unfoldable pub get_user_by_email : String → Exec (Option User)
  get_user_by_email email = run_sql x (select_user_by_email email)

  -- `fetch_optional(…).await?.ok_or(AuthError::UserNotFound)?`
  unfoldable pub find_user : Uuid → Exec User
  find_user id = do found ← run_sql x (select_user id); lift (ok_or found user_not_found)

  unfoldable pub revoke_all_tokens : Uuid → Exec (Unit {0})
  revoke_all_tokens id = run_sql x (revoke_user_tokens id)

  unfoldable pub record_successful_login : Uuid → Option String → Exec (Unit {0})
  record_successful_login id ip = run_sql x (record_success id ip)

module _ (x : Externals) (c : AuthConfig) where
  -- The count of rows is only logged.
  unfoldable pub increment_failed_attempts : Uuid → Exec (Unit {0})
  increment_failed_attempts id = do
    rows ←
        run_sql x
          (record_failure id c.max_login_attempts (λ now. x.db_add_seconds now c.lockout_duration))
    pure tt

  unfoldable pub register : RegisterRequest → Exec User
  register req = do
    lift (validate_password x c req.password)
    existing ← run_sql x (select_user_by_email req.email)
    fail_if (is_some existing) email_exists
    password_hash ← hash_password x c req.password
    id ← draw x.new_uuid
    run_sql x (insert_user id req.email password_hash req.name)

  unfoldable pub change_password : Uuid → ChangePasswordRequest → Exec (Unit {0})
  change_password id req = do
    user ← find_user x id
    verified ← lift (verify_password x c req.current_password user.password_hash)
    fail_if (not verified) invalid_credentials
    lift (validate_password x c req.new_password)
    password_hash ← hash_password x c req.new_password
    run_sql x (set_password id password_hash)
    revoke_all_tokens x id
