-- ===== src/Service/Reset.antt =====
-- `forgot_password` and `reset_password` of service.rs.
pub mod Done
pub mod Issued
pub mod Interrupted
pub mod Race
pub mod Sent
pub mod AfterForgot
pub mod Complete
pub mod NewPassword
use rustpress_plugin_authpro.Base.{String, Option, none, some}
use rustpress_plugin_authpro.Text.{base64_url_encode}
use rustpress_plugin_authpro.Error.{ok_or, invalid_token}
use rustpress_plugin_authpro.Models.{User}
use rustpress_plugin_authpro.Models.Requests.{ResetPasswordRequest}
use rustpress_plugin_authpro.Config.{AuthConfig}
use rustpress_plugin_authpro.Externals.{Externals}
use rustpress_plugin_authpro.Db.Users.{select_user_by_email, set_password}
use rustpress_plugin_authpro.Db.OneTimeTokens.{
  password_reset, supersede_tokens, insert_token, select_token, use_token,
}
use rustpress_plugin_authpro.Exec.{Exec, pure, lift, draw, run_sql, ◌>>=◌, ◌>>◌}
use rustpress_plugin_authpro.Service.Password.{hash_password, validate_password}
use rustpress_plugin_authpro.Service.Token.{hash_token, expiry}
use rustpress_plugin_authpro.Service.Account.{revoke_all_tokens}

module _ (x : Externals) (c : AuthConfig) where
  -- The rest of `forgot_password`, for the user that was found.
  unfoldable pub issue_reset : Option User → Exec String
  issue_reset none = pure ""
  issue_reset (some user) = do
    token_bytes ← draw x.random_bytes
    let token = base64_url_encode token_bytes
    now ← draw x.utc_now
    expires_at ← expiry x c now c.password_reset_expiration
    run_sql x (supersede_tokens password_reset user.id)
    id ← draw x.new_uuid
    run_sql x (insert_token password_reset id user.id (hash_token x c token) expires_at)
    pure token

  unfoldable pub forgot_password : String → Exec String
  forgot_password email = do found ← run_sql x (select_user_by_email email); issue_reset found

  unfoldable pub reset_password : ResetPasswordRequest → Exec (Unit {0})
  reset_password req = do
    lift (validate_password x c req.password)
    found ← run_sql x (select_token password_reset (hash_token x c req.token))
    token ← lift (ok_or found invalid_token)
    password_hash ← hash_password x c req.password
    run_sql x (set_password token.user_id password_hash)
    run_sql x (use_token password_reset token.id)
    revoke_all_tokens x token.user_id
