-- ===== src/Safety/Frame/Users.antt =====
-- The methods that write no user.
use rustpress_plugin_authpro.Base.{ap, String, Bool, true, false, Option, none, some}
use rustpress_plugin_authpro.Models.{Uuid, Instant, User, RefreshToken}
use rustpress_plugin_authpro.Models.Claims.{RefreshTokenClaims}
use rustpress_plugin_authpro.Config.{AuthConfig}
use rustpress_plugin_authpro.Externals.{Externals}
use rustpress_plugin_authpro.Db.RefreshTokens.{revoke_token, revoke_user_tokens}
use rustpress_plugin_authpro.Db.OneTimeTokens.{Purpose, supersede_tokens, insert_token}
use rustpress_plugin_authpro.Db.Effects.{
  revoke_token-done, revoke_user_tokens-done, users-with_tokens, supersede_tokens-done,
  insert_token-done,
}
use rustpress_plugin_authpro.Exec.Respects.{Respects, Keeps}
use rustpress_plugin_authpro.Service.Token.{expiry, decode_refresh_token}
use rustpress_plugin_authpro.Service.Account.{find_user, revoke_all_tokens}
use rustpress_plugin_authpro.Service.Login.Branches.{
  SameUsers, SameUsers-IsPreorder, access-SameUsers, refresh-SameUsers,
}
use rustpress_plugin_authpro.Service.Refresh.{
  logout, revoke_on_reuse, check_stored, rotate, refresh_tokens,
}
use rustpress_plugin_authpro.Service.Reset.{issue_reset, forgot_password}
use rustpress_plugin_authpro.Service.Verification.{create_email_verification}
use rustpress_plugin_authpro.Service.Calls.Statements.{statement_rules}

revoke_token-SameUsers : (id : Uuid) → Keeps SameUsers (revoke_token id)
revoke_token-SameUsers id now d d' a e = ap (λ d. d.users) (revoke_token-done now d d' id a e)

revoke_user_tokens-SameUsers : (id : Uuid) → Keeps SameUsers (revoke_user_tokens id)
revoke_user_tokens-SameUsers id now d d' a e =
    ap (λ d. d.users) (revoke_user_tokens-done now d d' id a e)

supersede_tokens-SameUsers : (p : Purpose) (id : Uuid) → Keeps SameUsers (supersede_tokens p id)
supersede_tokens-SameUsers p id now d d' a e =
    users-with_tokens p _ d d' (supersede_tokens-done now d d' p id a e)

insert_token-SameUsers :
    (p : Purpose) (id user : Uuid) (hash : String) (exp : Instant)
    → Keeps SameUsers (insert_token p id user hash exp)
insert_token-SameUsers p id user hash exp now d d' a e =
    users-with_tokens p _ d d' (insert_token-done now d d' p id user hash exp a e).0

module _ (x : Externals) (c : AuthConfig) where
  ruleset user_rules = (
    statement_rules, SameUsers-IsPreorder, revoke_token-SameUsers, revoke_user_tokens-SameUsers,
    supersede_tokens-SameUsers, insert_token-SameUsers, access-SameUsers, refresh-SameUsers,
  )

  pub logout-SameUsers : (token : String) → Respects SameUsers (logout x c token)
  unfolding logout decode_refresh_token
  logout-SameUsers token = search user_rules depth 12

  revoke_on_reuse-SameUsers :
      (sub : Uuid) (b : Bool) → Respects SameUsers (revoke_on_reuse x c sub b)
  unfolding revoke_on_reuse revoke_all_tokens
  revoke_on_reuse-SameUsers sub true = search user_rules
  revoke_on_reuse-SameUsers sub false = search user_rules

  check_stored-SameUsers :
      (sub : Uuid) (t : RefreshToken) (b : Bool) → Respects SameUsers (check_stored x c sub t b)
  unfolding check_stored
  check_stored-SameUsers sub t true = search user_rules
  check_stored-SameUsers sub t false = search (user_rules, revoke_on_reuse-SameUsers)

  rotate-SameUsers :
      (claims : RefreshTokenClaims) (ip agent : Option String)
      → Respects SameUsers (rotate x c claims ip agent)
  unfolding rotate find_user
  rotate-SameUsers claims ip agent = search user_rules depth 16

  pub refresh_tokens-SameUsers :
      (token : String) (ip agent : Option String)
      → Respects SameUsers (refresh_tokens x c token ip agent)
  unfolding refresh_tokens decode_refresh_token
  refresh_tokens-SameUsers token ip agent =
      search (user_rules, check_stored-SameUsers, rotate-SameUsers) depth 14

  issue_reset-SameUsers : (found : Option User) → Respects SameUsers (issue_reset x c found)
  unfolding issue_reset expiry
  issue_reset-SameUsers none = search user_rules
  issue_reset-SameUsers (some u) = search user_rules depth 16

  pub forgot_password-SameUsers : (email : String) → Respects SameUsers (forgot_password x c email)
  unfolding forgot_password
  forgot_password-SameUsers email = search (user_rules, issue_reset-SameUsers)

  pub create_email_verification-SameUsers :
      (id : Uuid) → Respects SameUsers (create_email_verification x c id)
  unfolding create_email_verification expiry
  create_email_verification-SameUsers id = search user_rules depth 16
