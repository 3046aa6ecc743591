-- ===== src/Service/Reset/Done.antt =====
-- A password reset that is done: what it wrote, and that its token works once.
use rustpress_plugin_authpro.Base.{
  suc, ◌≡◌, ap, ◌∙◌, String, str_eq, ◌&&◌, Option, some, List, find_where, update_by, update_where,
}
use rustpress_plugin_authpro.Error.{ok}
use rustpress_plugin_authpro.Models.{Instant, OneTimeToken}
use rustpress_plugin_authpro.Models.Requests.{ResetPasswordRequest}
use rustpress_plugin_authpro.Config.{AuthConfig}
use rustpress_plugin_authpro.Externals.{Externals}
use rustpress_plugin_authpro.Db.Users.{user_id, with_password}
use rustpress_plugin_authpro.Db.RefreshTokens.{revoked_now, is_live_of}
use rustpress_plugin_authpro.Db.OneTimeTokens.{
  password_reset, one_time_id, used_now, is_usable, select_token,
}
use rustpress_plugin_authpro.Db.Changes.{
  PasswordSet, PasswordSet-made, TokenUsed, TokenUsed-made, SessionsEnded, SessionsEnded-made,
}
use rustpress_plugin_authpro.Db.Effects.{set_password-done, use_token-done, revoke_user_tokens-done}
use rustpress_plugin_authpro.Exec.{World, tick}
use rustpress_plugin_authpro.Exec.Inversion.{
  Returns, Returns-run_sql, bind-lift, bind-run_sql, bind-ok_or, bind-select,
}
use rustpress_plugin_authpro.Service.Password.{hash_with_salt, hash_password, validate_password}
use rustpress_plugin_authpro.Service.Password.Returned.{bind-hash_password}
use rustpress_plugin_authpro.Service.Token.{hash_token}
use rustpress_plugin_authpro.Service.Account.{revoke_all_tokens}
use rustpress_plugin_authpro.Service.Reset.{reset_password}

-- The SELECT of `reset_password`.
abbrev pub usable_token : String → Instant → List OneTimeToken → Option OneTimeToken
usable_token hash now = find_where (λ t. str_eq t.token_hash hash && is_usable now t)

module _ (x : Externals) (c : AuthConfig) where
  pub record ResetDone (req : ResetPasswordRequest) (w w' : World) : Type 0 where
    pub token : OneTimeToken
    pub password_hash : String
    pub found :
        usable_token (hash_token x c req.token) (x.db_now w.step) w.db.password_reset_tokens
        ≡ some token
    pub strong : validate_password x c req.password ≡ ok tt
    pub hashed : hash_with_salt x c req.password (x.salt (suc w.step)) ≡ ok password_hash
    pub users :
        w'.db.users
        ≡ update_by user_id token.user_id
            (with_password password_hash (x.db_now (suc (suc w.step))))
            w.db.users
    pub tokens :
        w'.db.password_reset_tokens
        ≡ update_by one_time_id token.id
            (used_now (x.db_now (suc (suc (suc w.step)))))
            w.db.password_reset_tokens
    pub revoked :
        w'.db.refresh_tokens
        ≡ update_where
            (is_live_of token.user_id)
            (revoked_now (x.db_now (suc (suc (suc (suc w.step))))))
            w.db.refresh_tokens
    pub verifications : w'.db.email_verification_tokens ≡ w.db.email_verification_tokens

  -- A reset that succeeds had a usable token and a strong password. It sets the hash of the new
  -- password on the token's user, marks the token used, and revokes the user's refresh tokens.
  pub reset_password-Returns :
      (req : ResetPasswordRequest) (w w' : World)
      → Returns (reset_password x c req) w tt w'
      → ResetDone req w w'
  unfolding reset_password hash_password select_token is_usable revoke_all_tokens
  reset_password-Returns req w w' e =
      let (_, strong, e1) = bind-lift w w' tt _ _ e in
      let e2 =
        bind-select w w' tt x
          (λ now d. usable_token (hash_token x c req.token) now d.password_reset_tokens) _ e1 in
      let (t, found, e3) = bind-ok_or (tick w) w' tt _ _ _ e2 in
      let (hash, hashed, e4) = bind-hash_password x c (tick w) w' tt _ _ e3 in
      let (_, d1, set, e5) = bind-run_sql (tick (tick w)) w' tt x _ _ e4 in
      let (_, d2, used, e6) = bind-run_sql _ w' tt x _ _ e5 in
      let (gone, _) = Returns-run_sql x _ _ w' tt e6 in
      let after_set = set_password-done _ w.db d1 t.user_id hash tt set in
      let after_use = use_token-done _ d1 d2 password_reset t.id tt used in
      let after_revoke = revoke_user_tokens-done _ d2 w'.db t.user_id tt gone in
      record {
        token = t;
        password_hash = hash;
        found = found;
        strong = strong;
        hashed = hashed;
        users =
            ap (λ d. d.users) after_revoke
            ∙ ap (λ d. d.users) after_use
            ∙ ap (λ d. d.users) after_set;
        tokens =
            ap (λ d. d.password_reset_tokens) after_revoke
            ∙ ap (λ d. d.password_reset_tokens) after_use
            ∙ ap
                (λ d.
                  update_by one_time_id t.id (used_now (x.db_now (suc (suc (suc w.step)))))
                    d.password_reset_tokens)
                after_set;
        revoked =
            ap (λ d. d.refresh_tokens) after_revoke
            ∙ ap
                (λ d.
                  update_where (is_live_of t.user_id)
                    (revoked_now (x.db_now (suc (suc (suc (suc w.step)))))) d.refresh_tokens)
                after_use
            ∙ ap
                (λ d.
                  update_where (is_live_of t.user_id)
                    (revoked_now (x.db_now (suc (suc (suc (suc w.step)))))) d.refresh_tokens)
                after_set;
        verifications =
            ap (λ d. d.email_verification_tokens) after_revoke
            ∙ ap (λ d. d.email_verification_tokens) after_use
            ∙ ap (λ d. d.email_verification_tokens) after_set;
      }

  -- The hash is set on the token's user, whose sessions all end; the token is used; and no other row
  -- is changed.
  pub record ResetEffects (token : OneTimeToken) (hash : String) (w w' : World) : Type 0 where
    pub password : PasswordSet token.user_id hash (x.db_now (suc (suc w.step))) w.db w'.db
    pub used : TokenUsed password_reset token.id (x.db_now (suc (suc (suc w.step)))) w.db w'.db
    pub sessions : SessionsEnded token.user_id (x.db_now (suc (suc (suc (suc w.step))))) w.db w'.db
    pub verifications : w'.db.email_verification_tokens ≡ w.db.email_verification_tokens

  -- A successful reset had a usable token, and ends every session of the token's user: each of that
  -- user's refresh tokens is revoked. The user's stored hash is that of the new password, the token
  -- is used, and every other row is as it was: those of other users, and their sessions and tokens.
  pub reset_ends_sessions :
      (req : ResetPasswordRequest) (w w' : World)
      → Returns (reset_password x c req) w tt w'
      → (t : OneTimeToken) × (h : String) × (usable_token
            (hash_token x c req.token)
            (x.db_now w.step)
            w.db.password_reset_tokens
          ≡ some t)
        × (hash_with_salt x c req.password (x.salt (suc w.step)) ≡ ok h)
        × ResetEffects t h w w'
  reset_ends_sessions req w w' e =
      let r = reset_password-Returns req w w' e in
      (
        r.token,
        r.password_hash,
        r.found,
        r.hashed,
        record {
          password = PasswordSet-made r.token.user_id r.password_hash _ w.db w'.db r.users;
          used = TokenUsed-made password_reset r.token.id _ w.db w'.db r.tokens;
          sessions = SessionsEnded-made r.token.user_id _ w.db w'.db r.revoked;
          verifications = r.verifications;
        },
      )
