-- ===== src/Service/Refresh.antt =====
-- `logout` and `refresh_tokens` of service.rs.
pub mod Rotation
pub mod Complete
pub mod AfterLogin
pub mod Race
use rustpress_plugin_authpro.Base.{String, Bool, true, false, not, Option}
use rustpress_plugin_authpro.Text.Split.{rsplit_dot}
use rustpress_plugin_authpro.Error.{
  err, ok_or, invalid_token, token_revoked, user_not_found, account_not_active,
}
use rustpress_plugin_authpro.Models.{Uuid, User, RefreshToken, can_login, is_revoked, is_valid}
use rustpress_plugin_authpro.Models.Responses.{TokenResponse}
use rustpress_plugin_authpro.Models.Claims.{RefreshTokenClaims}
use rustpress_plugin_authpro.Config.{AuthConfig}
use rustpress_plugin_authpro.Externals.{Externals}
use rustpress_plugin_authpro.Db.RefreshTokens.{select_refresh_token, revoke_token}
use rustpress_plugin_authpro.Exec.{Exec, pure, lift, draw, fail_if, run_sql, ◌>>=◌, ◌>>◌}
use rustpress_plugin_authpro.Service.Token.{
  hash_token, decode_refresh_token, generate_access_token, generate_refresh_token,
}
use rustpress_plugin_authpro.Service.Account.{find_user, revoke_all_tokens}

module _ (x : Externals) (c : AuthConfig) where
  -- The signature of the JWT is not checked here.
  unfoldable pub logout : String → Exec (Unit {0})
  logout refresh_token = do
    parts ← lift (ok_or (rsplit_dot refresh_token) invalid_token)
    claims ← decode_refresh_token x c false parts.1
    run_sql x (revoke_token claims.tid)

  -- `if stored_token.is_revoked() { self.revoke_all_tokens(claims.sub).await?; }`
  unfoldable pub revoke_on_reuse : Uuid → Bool → Exec (Unit {0})
  revoke_on_reuse sub true = revoke_all_tokens x sub
  revoke_on_reuse sub false = pure tt

  -- `if !stored_token.is_valid() { … }`
  unfoldable pub check_stored : Uuid → RefreshToken → Bool → Exec (Unit {0})
  check_stored sub stored true = pure tt
  check_stored sub stored false = do
    revoke_on_reuse sub (is_revoked stored)
    lift (err token_revoked)

  -- From the lookup of the user on.
  unfoldable pub rotate : RefreshTokenClaims → Option String → Option String → Exec TokenResponse
  rotate claims ip_address user_agent = do
    user ← find_user x claims.sub
    now ← draw x.utc_now
    fail_if (not (can_login user now)) account_not_active
    access_token ← generate_access_token x c user
    refresh_token ← generate_refresh_token x c user.id ip_address user_agent
    run_sql x (revoke_token claims.tid)
    pure (record {
      access_token = access_token;
      refresh_token = refresh_token;
      token_type = "Bearer";
      expires_in = c.access_token_expiration;
    })

  unfoldable pub refresh_tokens : String → Option String → Option String → Exec TokenResponse
  refresh_tokens refresh_token ip_address user_agent = do
    parts ← lift (ok_or (rsplit_dot refresh_token) invalid_token)
    claims ← decode_refresh_token x c true parts.1
    found ← run_sql x (select_refresh_token claims.tid (hash_token x c parts.0))
    stored ← lift (ok_or found invalid_token)
    now ← draw x.utc_now
    check_stored claims.sub stored (is_valid stored now)
    rotate claims ip_address user_agent
