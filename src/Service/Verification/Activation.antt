-- ===== src/Service/Verification/Activation.antt =====
-- What an email verification writes.
use rustpress_plugin_authpro.Base.{ℕ, suc, ◌≡◌, refl, String, none, some, find_by, update_by}
use rustpress_plugin_authpro.Error.{ok}
use rustpress_plugin_authpro.Models.{User, OneTimeToken, active}
use rustpress_plugin_authpro.Config.{AuthConfig}
use rustpress_plugin_authpro.Externals.{Externals}
use rustpress_plugin_authpro.Db.Users.{user_id, verified, set_email_verified}
use rustpress_plugin_authpro.Db.OneTimeTokens.{
  email_verification, one_time_id, used_now, is_usable, select_token, use_token,
}
use rustpress_plugin_authpro.Db.Changes.{
  EmailVerified, EmailVerified-made, TokenUsed, TokenUsed-made,
}
use rustpress_plugin_authpro.Exec.{World, ◌>>=◌}
use rustpress_plugin_authpro.Service.Token.{hash_token}
use rustpress_plugin_authpro.Service.Reset.Done.{usable_token}
use rustpress_plugin_authpro.Service.Verification.{verify_email}

module _ (x : Externals) (c : AuthConfig) where
  -- The whole world after a verification.
  pub verify_email_lem :
      (token : String) (w : World) (t : OneTimeToken) (u : User)
      → ((n : ℕ) → x.db_fault n ≡ none)
      → usable_token (hash_token x c token) (x.db_now w.step) w.db.email_verification_tokens
        ≡ some t
      → find_by user_id t.user_id w.db.users ≡ some u
      → verify_email x c token w ≡ (
        ok (verified (x.db_now (suc w.step)) u),
        record {
          db = record w.db {
            users = update_by user_id t.user_id (verified (x.db_now (suc w.step))) w.db.users;
            email_verification_tokens =
                update_by one_time_id t.id
                  (used_now (x.db_now (suc (suc w.step))))
                  w.db.email_verification_tokens;
          };
          step = suc (suc (suc w.step));
        },
      )
  unfolding verify_email select_token is_usable set_email_verified use_token ◌>>=◌
  verify_email_lem token w t u healthy found known = simp (healthy, found, known)

  -- A usable verification token marks the email verified and makes its user active, whatever the
  -- status of the user was, suspended and deleted included; the token is used up, and every other row
  -- is as it was.
  pub verification_activates :
      (token : String) (w : World) (t : OneTimeToken) (u : User)
      → ((n : ℕ) → x.db_fault n ≡ none)
      → usable_token (hash_token x c token) (x.db_now w.step) w.db.email_verification_tokens
        ≡ some t
      → find_by user_id t.user_id w.db.users ≡ some u
      → (v : User) × (w' : World) × (verify_email x c token w ≡ (ok v, w'))
        × (v.status ≡ active)
        × (v.email_verified_at ≡ some (x.db_now (suc w.step)))
        × EmailVerified t.user_id (x.db_now (suc w.step)) w.db w'.db
        × TokenUsed email_verification t.id (x.db_now (suc (suc w.step))) w.db w'.db
        × (w'.db.refresh_tokens ≡ w.db.refresh_tokens)
        × (w'.db.password_reset_tokens ≡ w.db.password_reset_tokens)
  verification_activates token w t u healthy found known = (
    _,
    _,
    verify_email_lem token w t u healthy found known,
    refl,
    refl,
    EmailVerified-made t.user_id _ w.db _ refl,
    TokenUsed-made email_verification t.id _ w.db _ refl,
    refl,
    refl,
  )
