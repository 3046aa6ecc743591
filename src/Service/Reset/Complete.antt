-- ===== src/Service/Reset/Complete.antt =====
-- When a password reset succeeds, and what it writes.
use rustpress_plugin_authpro.Base.{
  ℕ, suc, ◌≡◌, refl, String, true, none, some, update_by, update_where, arith,
}
use rustpress_plugin_authpro.Error.{ok}
use rustpress_plugin_authpro.Models.{OneTimeToken}
use rustpress_plugin_authpro.Models.Requests.{ResetPasswordRequest}
use rustpress_plugin_authpro.Config.{AuthConfig}
use rustpress_plugin_authpro.Externals.{Externals}
use rustpress_plugin_authpro.Db.{fits, done, Db}
use rustpress_plugin_authpro.Db.Users.{user_id, with_password, update_user, set_password}
use rustpress_plugin_authpro.Db.RefreshTokens.{is_live_of, revoked_now, revoke_user_tokens}
use rustpress_plugin_authpro.Db.OneTimeTokens.{
  password_reset, one_time_id, used_now, is_usable, select_token, use_token,
}
use rustpress_plugin_authpro.Db.Changes.{PasswordSet-made, TokenUsed-made, SessionsEnded-made}
use rustpress_plugin_authpro.Exec.{World, ◌>>=◌}
use rustpress_plugin_authpro.Service.Password.{hash_with_salt, hash_password, validate_password}
use rustpress_plugin_authpro.Service.Token.{hash_token}
use rustpress_plugin_authpro.Service.Account.{revoke_all_tokens}
use rustpress_plugin_authpro.Service.Reset.{reset_password}
use rustpress_plugin_authpro.Service.Reset.Done.{usable_token, ResetEffects}

pub set_password_lem :
    (id : ℕ) (hash : String) (now : ℕ) (d : Db)
    → fits 255 hash ≡ true
    → set_password id hash now d ≡ done tt (update_user id (with_password hash now) d)
unfolding set_password
set_password_lem id hash now d short = rw short (ground arith)

module _ (x : Externals) (c : AuthConfig) (req : ResetPasswordRequest) (w : World) where
  -- The token is usable, the password is strong, and argon2 hashes it to a text that fits the column.
  pub record ResetReady : Type 0 where
    pub token : OneTimeToken
    pub hash : String
    pub healthy : (n : ℕ) → x.db_fault n ≡ none
    pub strong : validate_password x c req.password ≡ ok tt
    pub found :
        usable_token (hash_token x c req.token) (x.db_now w.step) w.db.password_reset_tokens
        ≡ some token
    pub hashed : hash_with_salt x c req.password (x.salt (suc w.step)) ≡ ok hash
    pub hash_fits : fits 255 hash ≡ true

  -- The world after the reset.
  abbrev pub reset_world : ResetReady → World
  reset_world h = record {
    db = record w.db {
      users =
          update_by user_id h.token.user_id (with_password h.hash (x.db_now (suc (suc w.step))))
            w.db.users;
      password_reset_tokens =
          update_by one_time_id h.token.id (used_now (x.db_now (suc (suc (suc w.step)))))
            w.db.password_reset_tokens;
      refresh_tokens =
          update_where (is_live_of h.token.user_id)
            (revoked_now (x.db_now (suc (suc (suc (suc w.step)))))) w.db.refresh_tokens;
    };
    step = suc (suc (suc (suc (suc w.step))));
  }

  -- The whole world after a reset with a usable token and a strong password.
  pub reset_succeeds : (h : ResetReady) → reset_password x c req w ≡ (ok tt, reset_world h)
  unfolding reset_password hash_password select_token is_usable use_token revoke_all_tokens
      revoke_user_tokens ◌>>=◌
  reset_succeeds h = simp (
    h.healthy,
    h.strong,
    h.found,
    h.hashed,
    set_password_lem h.token.user_id h.hash (x.db_now (suc (suc w.step))) w.db h.hash_fits,
  )

  -- A reset with a usable token and a strong password succeeds, where no statement fails. The user's
  -- stored hash is then that of the new password, every session of the user has ended, the token is
  -- used, and every other row is as it was.
  pub reset_sets_password :
      (h : ResetReady)
      → (w' : World) × (reset_password x c req w ≡ (ok tt, w'))
        × ResetEffects x c h.token h.hash w w'
  reset_sets_password h = (
    reset_world h,
    reset_succeeds h,
    record {
      password = PasswordSet-made h.token.user_id h.hash _ w.db (reset_world h).db refl;
      used = TokenUsed-made password_reset h.token.id _ w.db (reset_world h).db refl;
      sessions = SessionsEnded-made h.token.user_id _ w.db (reset_world h).db refl;
      verifications = refl;
    },
  )
