-- ===== src/Safety/Frame.antt =====
-- What each call leaves alone.
pub mod Users
pub mod Sessions
use rustpress_plugin_authpro.Base.{
  ◌≡◌, refl, ap, ◌∙◌, String, Bool, true, false, Option, none, some, List, [], ◌∷◌, All,
}
use rustpress_plugin_authpro.Models.{Uuid, Instant, User, RefreshToken}
use rustpress_plugin_authpro.Models.Claims.{RefreshTokenClaims}
use rustpress_plugin_authpro.Models.Requests.{RegisterRequest}
use rustpress_plugin_authpro.Config.{AuthConfig}
use rustpress_plugin_authpro.Externals.{Externals}
use rustpress_plugin_authpro.Db.{Db}
use rustpress_plugin_authpro.Db.Users.{insert_user, set_email_verified}
use rustpress_plugin_authpro.Db.RefreshTokens.{revoke_token, revoke_user_tokens}
use rustpress_plugin_authpro.Db.OneTimeTokens.{Purpose, supersede_tokens, insert_token, use_token}
use rustpress_plugin_authpro.Db.Effects.{
  insert_user-done, set_email_verified-done, revoke_token-done, revoke_user_tokens-done,
  users-with_tokens, refresh_tokens-with_tokens, supersede_tokens-done, insert_token-done,
  use_token-done,
}
use rustpress_plugin_authpro.Exec.{World}
use rustpress_plugin_authpro.Exec.Respects.{IsPreorder, Respects, Keeps, Respects-run_sql}
use rustpress_plugin_authpro.Service.Password.{hash_password}
use rustpress_plugin_authpro.Service.Token.{expiry, decode_refresh_token}
use rustpress_plugin_authpro.Service.Account.{
  get_user, get_user_by_email, find_user, revoke_all_tokens, register,
}
use rustpress_plugin_authpro.Service.Login.Branches.{
  SameUsers, SameUsers-IsPreorder, access-SameUsers, refresh-SameUsers,
}
use rustpress_plugin_authpro.Service.Refresh.{
  logout, revoke_on_reuse, check_stored, rotate, refresh_tokens,
}
use rustpress_plugin_authpro.Service.Reset.{issue_reset, forgot_password}
use rustpress_plugin_authpro.Service.Verification.{create_email_verification, verify_email}
use rustpress_plugin_authpro.Service.Calls.{
  Call, registers, logs_in, logs_out, refreshes, forgets_password, resets_password,
  changes_password, asks_verification, verifies_email, gets_user, gets_user_by_email, perform, run,
}
use rustpress_plugin_authpro.Service.Calls.Statements.{statement_rules}
use rustpress_plugin_authpro.Safety.Frame.Users.{
  logout-SameUsers, refresh_tokens-SameUsers, forgot_password-SameUsers,
  create_email_verification-SameUsers,
}
use rustpress_plugin_authpro.Safety.Frame.Sessions.{
  SameSessions, SameSessions-IsPreorder, register-SameSessions, forgot_password-SameSessions,
  create_email_verification-SameSessions, verify_email-SameSessions,
}

pub data Table : Type 0 where
  users sessions : Table

abbrev pub Same : Table → Db → Db → Type 0
Same users d d' = SameUsers d d'
Same sessions d d' = SameSessions d d'

-- The calls that are about tokens and emails alone, and those that are not about sessions.
abbrev leaves_users : Call → Bool
leaves_users (logs_out token) = true
leaves_users (refreshes token ip agent) = true
leaves_users (forgets_password email) = true
leaves_users (asks_verification id) = true
leaves_users (gets_user id) = true
leaves_users (gets_user_by_email email) = true
leaves_users _ = false

abbrev leaves_sessions : Call → Bool
leaves_sessions (registers req) = true
leaves_sessions (forgets_password email) = true
leaves_sessions (asks_verification id) = true
leaves_sessions (verifies_email token) = true
leaves_sessions (gets_user id) = true
leaves_sessions (gets_user_by_email email) = true
leaves_sessions _ = false

abbrev pub leaves : Table → Call → Bool
leaves users call = leaves_users call
leaves sessions call = leaves_sessions call

module _ (x : Externals) {R : Db → Db → Type 0} (pre : IsPreorder R) where
  get_user-Respects : (id : Uuid) → Respects R (get_user x id)
  unfolding get_user
  get_user-Respects id = search (statement_rules, pre)

  get_user_by_email-Respects : (email : String) → Respects R (get_user_by_email x email)
  unfolding get_user_by_email
  get_user_by_email-Respects email = search (statement_rules, pre)

module _ (x : Externals) (c : AuthConfig) where
  users_left :
      (call : Call) (w : World) → leaves_users call ≡ true → SameUsers w.db (perform x c call w).db
  unfolding perform
  users_left (logs_out token) w h = (logout-SameUsers x c token).at w
  users_left (refreshes token ip agent) w h = (refresh_tokens-SameUsers x c token ip agent).at w
  users_left (forgets_password email) w h = (forgot_password-SameUsers x c email).at w
  users_left (asks_verification id) w h = (create_email_verification-SameUsers x c id).at w
  users_left (gets_user id) w h = (get_user-Respects x SameUsers-IsPreorder id).at w
  users_left (gets_user_by_email email) w h =
      (get_user_by_email-Respects x SameUsers-IsPreorder email).at w
  users_left (registers req) w h = cc
  users_left (logs_in req ip agent) w h = cc
  users_left (resets_password req) w h = cc
  users_left (changes_password id req) w h = cc
  users_left (verifies_email token) w h = cc

  sessions_left :
      (call : Call) (w : World)
      → leaves_sessions call ≡ true
      → SameSessions w.db (perform x c call w).db
  unfolding perform
  sessions_left (registers req) w h = (register-SameSessions x c req).at w
  sessions_left (forgets_password email) w h = (forgot_password-SameSessions x c email).at w
  sessions_left (asks_verification id) w h = (create_email_verification-SameSessions x c id).at w
  sessions_left (verifies_email token) w h = (verify_email-SameSessions x c token).at w
  sessions_left (gets_user id) w h = (get_user-Respects x SameSessions-IsPreorder id).at w
  sessions_left (gets_user_by_email email) w h =
      (get_user_by_email-Respects x SameSessions-IsPreorder email).at w
  sessions_left (logs_in req ip agent) w h = cc
  sessions_left (logs_out token) w h = cc
  sessions_left (refreshes token ip agent) w h = cc
  sessions_left (resets_password req) w h = cc
  sessions_left (changes_password id req) w h = cc

  left :
      (t : Table) (call : Call) (w : World)
      → leaves t call ≡ true
      → Same t w.db (perform x c call w).db
  left users = users_left
  left sessions = sessions_left

  Same-trans : (t : Table) (a b d : Db) → Same t a b → Same t b d → Same t a d
  Same-trans users a b d h k = k ∙ h
  Same-trans sessions a b d h k = k ∙ h

  Same-refl : (t : Table) (a : Db) → Same t a a
  Same-refl users a = refl
  Same-refl sessions a = refl

  -- Calls keep out of the tables that they are not for, whatever they answer, over any sequence of
  -- them: logouts, refreshes, requests for a reset or a verification and lookups leave every user as
  -- they were, and registrations, requests for a reset or a verification, verifications and lookups
  -- leave every refresh token.
  pub run-Same :
      (t : Table) (calls : List Call) (w : World)
      → All (λ call. leaves t call ≡ true) calls
      → Same t w.db (run x c calls w).db
  unfolding run
  run-Same t [] w h = Same-refl t w.db
  run-Same t (call ∷ calls) w h =
      Same-trans t w.db (perform x c call w).db _ (left t call w h.0)
        (run-Same t calls (perform x c call w) h.1)
