-- ===== src/Service/Verification.antt =====
-- The section "Email Verification" of service.rs.
pub mod Activation
pub mod AfterAsk
use rustpress_plugin_authpro.Base.{String}
use rustpress_plugin_authpro.Text.{base64_url_encode}
use rustpress_plugin_authpro.Error.{ok_or, invalid_token}
use rustpress_plugin_authpro.Models.{Uuid, User}
use rustpress_plugin_authpro.Config.{AuthConfig}
use rustpress_plugin_authpro.Externals.{Externals}
use rustpress_plugin_authpro.Db.Users.{set_email_verified}
use rustpress_plugin_authpro.Db.OneTimeTokens.{
  email_verification, supersede_tokens, insert_token, select_token, use_token,
}
use rustpress_plugin_authpro.Exec.{Exec, pure, lift, draw, run_sql, ◌>>=◌, ◌>>◌}
use rustpress_plugin_authpro.Service.Token.{hash_token, expiry}

module _ (x : Externals) (c : AuthConfig) where
  unfoldable pub create_email_verification : Uuid → Exec String
  create_email_verification user_id = do
    token_bytes ← draw x.random_bytes
    let token = base64_url_encode token_bytes
    now ← draw x.utc_now
    expires_at ← expiry x c now c.email_verification_expiration
    run_sql x (supersede_tokens email_verification user_id)
    id ← draw x.new_uuid
    run_sql x (insert_token email_verification id user_id (hash_token x c token) expires_at)
    pure token

  unfoldable pub verify_email : String → Exec User
  verify_email token = do
    found ← run_sql x (select_token email_verification (hash_token x c token))
    record_found ← lift (ok_or found invalid_token)
    user ← run_sql x (set_email_verified record_found.user_id)
    run_sql x (use_token email_verification record_found.id)
    pure user
