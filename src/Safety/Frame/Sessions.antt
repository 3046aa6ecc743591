-- ===== src/Safety/Frame/Sessions.antt =====
-- The methods that write no refresh token.
use rustpress_plugin_authpro.Base.{◌≡◌, refl, ap, ◌∙◌, String, Option, none, some}
use rustpress_plugin_authpro.Models.{Uuid, Instant, User}
use rustpress_plugin_authpro.Models.Requests.{RegisterRequest}
use rustpress_plugin_authpro.Config.{AuthConfig}
use rustpress_plugin_authpro.Externals.{Externals}
use rustpress_plugin_authpro.Db.{Db}
use rustpress_plugin_authpro.Db.Users.{insert_user, set_email_verified}
use rustpress_plugin_authpro.Db.OneTimeTokens.{Purpose, supersede_tokens, insert_token, use_token}
use rustpress_plugin_authpro.Db.Effects.{
  insert_user-done, set_email_verified-done, refresh_tokens-with_tokens, supersede_tokens-done,
  insert_token-done, use_token-done,
}
use rustpress_plugin_authpro.Exec.Respects.{IsPreorder, Respects, Keeps}
use rustpress_plugin_authpro.Service.Password.{hash_password}
use rustpress_plugin_authpro.Service.Token.{expiry}
use rustpress_plugin_authpro.Service.Account.{register}
use rustpress_plugin_authpro.Service.Reset.{issue_reset, forgot_password}
use rustpress_plugin_authpro.Service.Verification.{create_email_verification, verify_email}
use rustpress_plugin_authpro.Service.Calls.Statements.{statement_rules}

abbrev pub SameSessions : Db → Db → Type 0
SameSessions d d' = d'.refresh_tokens ≡ d.refresh_tokens

pub SameSessions-IsPreorder : IsPreorder SameSessions
SameSessions-IsPreorder = record { same = λ d. refl; next = λ a b c h k. k ∙ h }

insert_user-SameSessions :
    (id : Uuid) (email hash name : String) → Keeps SameSessions (insert_user id email hash name)
insert_user-SameSessions id email hash name now d d' a e =
    ap (λ d. d.refresh_tokens) (insert_user-done now d d' id email hash name a e).0

set_email_verified-SameSessions : (id : Uuid) → Keeps SameSessions (set_email_verified id)
set_email_verified-SameSessions id now d d' a e =
    ap (λ d. d.refresh_tokens) (set_email_verified-done now d d' id a e)

supersede_tokens-SameSessions :
    (p : Purpose) (id : Uuid) → Keeps SameSessions (supersede_tokens p id)
supersede_tokens-SameSessions p id now d d' a e =
    refresh_tokens-with_tokens p _ d d' (supersede_tokens-done now d d' p id a e)

insert_token-SameSessions :
    (p : Purpose) (id user : Uuid) (hash : String) (exp : Instant)
    → Keeps SameSessions (insert_token p id user hash exp)
insert_token-SameSessions p id user hash exp now d d' a e =
    refresh_tokens-with_tokens p _ d d' (insert_token-done now d d' p id user hash exp a e).0

use_token-SameSessions : (p : Purpose) (id : Uuid) → Keeps SameSessions (use_token p id)
use_token-SameSessions p id now d d' a e =
    refresh_tokens-with_tokens p _ d d' (use_token-done now d d' p id a e)

module _ (x : Externals) (c : AuthConfig) where
  ruleset session_rules = (
    statement_rules, SameSessions-IsPreorder, insert_user-SameSessions,
    set_email_verified-SameSessions, supersede_tokens-SameSessions, insert_token-SameSessions,
    use_token-SameSessions,
  )

  pub register-SameSessions : (req : RegisterRequest) → Respects SameSessions (register x c req)
  unfolding register hash_password
  register-SameSessions req = search session_rules depth 16

  issue_reset-SameSessions : (found : Option User) → Respects SameSessions (issue_reset x c found)
  unfolding issue_reset expiry
  issue_reset-SameSessions none = search session_rules
  issue_reset-SameSessions (some u) = search session_rules depth 16

  pub forgot_password-SameSessions :
      (email : String) → Respects SameSessions (forgot_password x c email)
  unfolding forgot_password
  forgot_password-SameSessions email = search (session_rules, issue_reset-SameSessions)

  pub create_email_verification-SameSessions :
      (id : Uuid) → Respects SameSessions (create_email_verification x c id)
  unfolding create_email_verification expiry
  create_email_verification-SameSessions id = search session_rules depth 16

  pub verify_email-SameSessions : (token : String) → Respects SameSessions (verify_email x c token)
  unfolding verify_email
  verify_email-SameSessions token = search session_rules depth 12
