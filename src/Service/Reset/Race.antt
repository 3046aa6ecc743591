-- ===== src/Service/Reset/Race.antt =====
-- Two resets at once with one token. `reset_password` runs no transaction: other requests come between
-- its SELECT of the token and the UPDATE that marks the token used.
use rustpress_plugin_authpro.Base.{
  ℕ, suc, ◌≡◌, refl, ◌∙◌, String, true, none, some, find_by, find-update_by, update_by,
  update_where, ==_refl, arith,
}
use rustpress_plugin_authpro.Error.{ok, ok_or, invalid_token}
use rustpress_plugin_authpro.Models.{User, OneTimeToken}
use rustpress_plugin_authpro.Models.Requests.{ResetPasswordRequest}
use rustpress_plugin_authpro.Config.{AuthConfig}
use rustpress_plugin_authpro.Externals.{Externals}
use rustpress_plugin_authpro.Db.{fits}
use rustpress_plugin_authpro.Db.Users.{user_id, with_password, set_password}
use rustpress_plugin_authpro.Db.RefreshTokens.{is_live_of, revoked_now, revoke_user_tokens}
use rustpress_plugin_authpro.Db.OneTimeTokens.{
  password_reset, one_time_id, used_now, is_usable, select_token, use_token,
}
use rustpress_plugin_authpro.Exec.{World, Exec, lift, run_sql, tick, ◌>>=◌, ◌>>◌}
use rustpress_plugin_authpro.Exec.Stepping.{bind-nest, bind-of_returns}
use rustpress_plugin_authpro.Service.Password.{hash_with_salt, hash_password, validate_password}
use rustpress_plugin_authpro.Service.Token.{hash_token}
use rustpress_plugin_authpro.Service.Account.{revoke_all_tokens}
use rustpress_plugin_authpro.Service.Reset.{reset_password}
use rustpress_plugin_authpro.Service.Reset.Done.{usable_token}
use rustpress_plugin_authpro.Service.Reset.Complete.{set_password_lem}

module _ (x : Externals) (c : AuthConfig) where
  -- `reset_password` up to the search for the token.
  unfoldable pub find_token : ResetPasswordRequest → Exec OneTimeToken
  find_token req = do
    lift (validate_password x c req.password)
    found ← run_sql x (select_token password_reset (hash_token x c req.token))
    lift (ok_or found invalid_token)

  -- From the hash of the new password on.
  unfoldable pub write_password : ResetPasswordRequest → OneTimeToken → Exec (Unit {0})
  write_password req token = do
    password_hash ← hash_password x c req.password
    run_sql x (set_password token.user_id password_hash)
    run_sql x (use_token password_reset token.id)
    revoke_all_tokens x token.user_id

  -- The two parts are all of `reset_password`.
  find_token-write_password :
      (req : ResetPasswordRequest) (w : World)
      → (find_token req >>= write_password req) w ≡ reset_password x c req w
  unfolding find_token write_password reset_password
  find_token-write_password req w =
      bind-nest _ _ _ _ w (λ _ v. bind-nest _ _ _ _ v (λ found v. refl))

  -- Two requests, where both find the token before either writes.
  unfoldable pub reset_both : ResetPasswordRequest → ResetPasswordRequest → Exec (Unit {0})
  reset_both req req' = do
    token ← find_token req
    token' ← find_token req'
    write_password req token
    write_password req' token'

  -- The tables after a reset with a token and a hash, which starts to write at this step.
  abbrev pub written : OneTimeToken → String → World → World
  written token hash w = record {
    db = record w.db {
      users =
          update_by user_id token.user_id (with_password hash (x.db_now (suc w.step))) w.db.users;
      password_reset_tokens =
          update_by one_time_id token.id (used_now (x.db_now (suc (suc w.step))))
            w.db.password_reset_tokens;
      refresh_tokens =
          update_where (is_live_of token.user_id) (revoked_now (x.db_now (suc (suc (suc w.step)))))
            w.db.refresh_tokens;
    };
    step = suc (suc (suc (suc w.step)));
  }

  module _ (healthy : (n : ℕ) → x.db_fault n ≡ none) where
    find_token-finds :
        (req : ResetPasswordRequest) (token : OneTimeToken) (w : World)
        → validate_password x c req.password ≡ ok tt
        → usable_token (hash_token x c req.token) (x.db_now w.step) w.db.password_reset_tokens
          ≡ some token
        → find_token req w ≡ (ok token, tick w)
    unfolding find_token select_token is_usable ◌>>=◌
    find_token-finds req token w strong found = simp (healthy, strong, found)

    write_password-writes :
        (req : ResetPasswordRequest) (token : OneTimeToken) (hash : String) (w : World)
        → hash_with_salt x c req.password (x.salt w.step) ≡ ok hash
        → fits 255 hash ≡ true
        → write_password req token w ≡ (ok tt, written token hash w)
    unfolding write_password hash_password use_token revoke_all_tokens revoke_user_tokens ◌>>=◌
    write_password-writes req token hash w hashed hash_fits = simp (
      healthy,
      hashed,
      set_password_lem token.user_id hash (x.db_now (suc w.step)) w.db hash_fits,
    )

  -- Two strong passwords that argon2 hashes at their steps, for one token that is found at both.
  pub record BothReady (req req' : ResetPasswordRequest) (token : OneTimeToken) (u : User)
      (hash hash' : String) (w : World) : Type 0 where
    pub healthy : (n : ℕ) → x.db_fault n ≡ none
    pub same_token : req'.token ≡ req.token
    pub strong : validate_password x c req.password ≡ ok tt
    pub strong' : validate_password x c req'.password ≡ ok tt
    pub found :
        usable_token (hash_token x c req.token) (x.db_now w.step) w.db.password_reset_tokens
        ≡ some token
    pub found' :
        usable_token (hash_token x c req.token) (x.db_now (suc w.step)) w.db.password_reset_tokens
        ≡ some token
    pub user : find_by user_id token.user_id w.db.users ≡ some u
    pub hashed : hash_with_salt x c req.password (x.salt (suc (suc w.step))) ≡ ok hash
    pub hashed' :
        hash_with_salt x c req'.password (x.salt (suc (suc (suc (suc (suc (suc w.step)))))))
        ≡ ok hash'
    pub fits_column : fits 255 hash ≡ true
    pub fits_column' : fits 255 hash' ≡ true

  -- A reset token works twice at once: where two requests with one token both find it before either
  -- marks it used, both resets succeed, and the user's password is that of the later one.
  pub reset_both-succeeds :
      (req req' : ResetPasswordRequest) (token : OneTimeToken) (u : User) (hash hash' : String)
      (w : World)
      → BothReady req req' token u hash hash' w
      → (w' : World) × (v : User) × (reset_both req req' w ≡ (ok tt, w'))
        × (find_by user_id token.user_id w'.db.users ≡ some v)
        × (v.password_hash ≡ hash')
  unfolding reset_both
  reset_both-succeeds req req' token u hash hash' w h =
      let first : World = written token hash (tick (tick w)) in
      let last : World = written token hash' first in
      (
        last,
        with_password hash' (x.db_now (suc first.step))
            (with_password hash (x.db_now (suc (suc (suc w.step)))) u),
        bind-of_returns _ _ w _ token (find_token-finds h.healthy req token w h.strong h.found)
            ∙ bind-of_returns _ _ _ _ token (
                find_token-finds h.healthy req' token (tick w) h.strong'
                  (rw (h.same_token) h.found'))
            ∙ bind-of_returns _ _ _ _ tt (
                write_password-writes h.healthy req token hash (tick (tick w)) h.hashed
                  h.fits_column)
            ∙ write_password-writes h.healthy req' token hash' first h.hashed' h.fits_column',
        ground (
          arith,
          h.user,
          find-update_by user_id token.user_id token.user_id
              (with_password hash (x.db_now (suc (suc (suc w.step))))) (λ v. refl) w.db.users,
          find-update_by user_id token.user_id token.user_id
              (with_password hash' (x.db_now (suc first.step))) (λ v. refl) first.db.users,
          ==_refl token.user_id,
        ),
        refl,
      )
