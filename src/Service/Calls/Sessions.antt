-- ===== src/Service/Calls/Sessions.antt =====
-- The methods that open, rotate and end sessions, for every preorder that the statements keep.
use rustpress_plugin_authpro.Base.{String, Bool, true, false, Option}
use rustpress_plugin_authpro.Base.Int.{ℤ}
use rustpress_plugin_authpro.Models.{Uuid, Instant, User, RefreshToken}
use rustpress_plugin_authpro.Models.Claims.{RefreshTokenClaims}
use rustpress_plugin_authpro.Models.Requests.{LoginRequest}
use rustpress_plugin_authpro.Config.{AuthConfig}
use rustpress_plugin_authpro.Externals.{Externals}
use rustpress_plugin_authpro.Db.{Db}
use rustpress_plugin_authpro.Exec.Respects.{Respects}
use rustpress_plugin_authpro.Service.Token.{
  expiry, generate_access_token, generate_refresh_token, decode_refresh_token,
}
use rustpress_plugin_authpro.Service.Account.{
  find_user, revoke_all_tokens, record_successful_login, increment_failed_attempts,
}
use rustpress_plugin_authpro.Service.Login.{check_password, open_session, login_as, login}
use rustpress_plugin_authpro.Service.Refresh.{
  logout, revoke_on_reuse, check_stored, rotate, refresh_tokens,
}
use rustpress_plugin_authpro.Service.Calls.Statements.{StatementsKeep, statement_rules}

module _ {R : Db → Db → Type 0} {x : Externals} {c : AuthConfig} (k : StatementsKeep R x c) where
  pub expiry-Respects : (now : Instant) (seconds : ℤ) → Respects R (expiry x c now seconds)
  unfolding expiry
  expiry-Respects now seconds = search (statement_rules, k.preorder)

  generate_access_token-Respects : (u : User) → Respects R (generate_access_token x c u)
  unfolding generate_access_token
  generate_access_token-Respects u = search (statement_rules, k.preorder) depth 9

  generate_refresh_token-Respects :
      (id : Uuid) (ip agent : Option String) → Respects R (generate_refresh_token x c id ip agent)
  unfolding generate_refresh_token
  generate_refresh_token-Respects id ip agent =
      search (statement_rules, k.preorder, k.inserts_refresh) depth 12

  decode_refresh_token-Respects :
      (checks : Bool) (jwt : String) → Respects R (decode_refresh_token x c checks jwt)
  unfolding decode_refresh_token
  decode_refresh_token-Respects checks jwt = search (statement_rules, k.preorder)

  pub find_user-Respects : (id : Uuid) → Respects R (find_user x id)
  unfolding find_user
  find_user-Respects id = search (statement_rules, k.preorder)

  pub revoke_all_tokens-Respects : (id : Uuid) → Respects R (revoke_all_tokens x id)
  unfolding revoke_all_tokens
  revoke_all_tokens-Respects id = search (statement_rules, k.preorder, k.revokes_user)

  check_password-Respects : (u : User) (b : Bool) → Respects R (check_password x c u b)
  unfolding check_password increment_failed_attempts
  check_password-Respects u true = search (statement_rules, k.preorder)
  check_password-Respects u false = search (statement_rules, k.preorder, k.records_failure) depth 8

  open_session-Respects :
      (u : User) (ip agent : Option String) → Respects R (open_session x c u ip agent)
  unfolding open_session record_successful_login
  open_session-Respects u ip agent =
      search
        (
          statement_rules, k.preorder, k.records_success, generate_access_token-Respects,
          generate_refresh_token-Respects,
        )
        depth 9

  login_as-Respects :
      (req : LoginRequest) (ip agent : Option String) (u : User)
      → Respects R (login_as x c req ip agent u)
  unfolding login_as
  login_as-Respects req ip agent u =
      search (statement_rules, k.preorder, check_password-Respects, open_session-Respects) depth 12

  pub login-Respects :
      (req : LoginRequest) (ip agent : Option String) → Respects R (login x c req ip agent)
  unfolding login
  login-Respects req ip agent = search (statement_rules, k.preorder, login_as-Respects)

  pub logout-Respects : (token : String) → Respects R (logout x c token)
  unfolding logout
  logout-Respects token =
      search (statement_rules, k.preorder, decode_refresh_token-Respects, k.revokes) depth 7

  revoke_on_reuse-Respects : (sub : Uuid) (b : Bool) → Respects R (revoke_on_reuse x c sub b)
  unfolding revoke_on_reuse
  revoke_on_reuse-Respects sub true = revoke_all_tokens-Respects sub
  revoke_on_reuse-Respects sub false = search (statement_rules, k.preorder)

  check_stored-Respects :
      (sub : Uuid) (t : RefreshToken) (b : Bool) → Respects R (check_stored x c sub t b)
  unfolding check_stored
  check_stored-Respects sub t true = search (statement_rules, k.preorder)
  check_stored-Respects sub t false = search (statement_rules, k.preorder, revoke_on_reuse-Respects)

  rotate-Respects :
      (claims : RefreshTokenClaims) (ip agent : Option String)
      → Respects R (rotate x c claims ip agent)
  unfolding rotate
  rotate-Respects claims ip agent =
      search
        (
          statement_rules, k.preorder, find_user-Respects, generate_access_token-Respects,
          generate_refresh_token-Respects, k.revokes,
        )
        depth 12

  pub refresh_tokens-Respects :
      (token : String) (ip agent : Option String) → Respects R (refresh_tokens x c token ip agent)
  unfolding refresh_tokens
  refresh_tokens-Respects token ip agent =
      search
        (
          statement_rules, k.preorder, decode_refresh_token-Respects, check_stored-Respects,
          rotate-Respects,
        )
        depth 12
