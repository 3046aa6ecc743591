-- ===== src/Service/Reset/Issued.antt =====
-- What `forgot_password` has done when it returns.
use rustpress_plugin_authpro.Base.{
  suc, ◌≡◌, refl, ap, String, Option, none, some, [], ◌∷◌, ◌++◌, update_where, inl, inr, ◌⊎◌,
}
use rustpress_plugin_authpro.Text.{base64_url_encode}
use rustpress_plugin_authpro.Models.{Instant, User}
use rustpress_plugin_authpro.Config.{AuthConfig}
use rustpress_plugin_authpro.Externals.{Externals}
use rustpress_plugin_authpro.Db.Users.{select_user_by_email}
use rustpress_plugin_authpro.Db.OneTimeTokens.{password_reset, is_unused_of, used_now, new_one_time}
use rustpress_plugin_authpro.Db.Effects.{supersede_tokens-done, insert_token-done}
use rustpress_plugin_authpro.Exec.{World, tick}
use rustpress_plugin_authpro.Exec.Inversion.{
  Returns, Returns-pure, bind-lift, bind-draw, bind-run_sql, bind-select,
}
use rustpress_plugin_authpro.Service.Token.{hash_token, expiry}
use rustpress_plugin_authpro.Service.Reset.{issue_reset, forgot_password}
use rustpress_plugin_authpro.Service.Login.Lockout.{with_email}

module _ (x : Externals) (c : AuthConfig) where
  pub record ResetIssued (u : User) (w : World) (token : String) (w' : World) : Type 0 where
    pub expires_at : Instant
    pub encoded : token ≡ base64_url_encode (x.random_bytes w.step)
    pub stored : w'.db ≡ record w.db {
      password_reset_tokens =
          update_where
            (is_unused_of u.id)
            (used_now (x.db_now (suc (suc w.step))))
            w.db.password_reset_tokens
          ++ new_one_time
              (x.new_uuid (suc (suc (suc w.step))))
              u.id
              (hash_token x c token)
              expires_at
              (x.db_now (suc (suc (suc (suc w.step)))))
            ∷ [];
    }

  issue_reset-Returns :
      (u : User) (w w' : World) (token : String)
      → Returns (issue_reset x c (some u)) w token w'
      → ResetIssued u w token w'
  unfolding issue_reset expiry
  issue_reset-Returns u w w' token e =
      let e1 = bind-draw w w' token x.random_bytes _ e in
      let e2 = bind-draw (tick w) w' token x.utc_now _ e1 in
      let (exp, _, e3) = bind-lift (tick (tick w)) w' token _ _ e2 in
      let (_, d1, superseded, e4) = bind-run_sql (tick (tick w)) w' token x _ _ e3 in
      let e5 = bind-draw _ w' token x.new_uuid _ e4 in
      let (_, d2, inserted, e6) = bind-run_sql _ w' token x _ _ e5 in
      let (given, last) = Returns-pure _ _ w' token e6 in
      let after = supersede_tokens-done _ w.db d1 password_reset u.id tt superseded in
      let (added, _, _) = insert_token-done _ d1 d2 password_reset _ u.id _ exp tt inserted in
      record { expires_at = exp; encoded = given; stored = rw (given, last, added, after) }

  -- A request to reset a password that returns has one of two outcomes. Nobody has the email, the
  -- token is empty and no table is written; or a user has it, every unused reset token of that user
  -- is marked used, a row for the new one is added, and nothing else is written.
  pub forgot_password-Returns :
      (email : String) (w w' : World) (token : String)
      → Returns (forgot_password x c email) w token w'
      → ((with_email email w.db ≡ none) × (token ≡ "") × (w'.db ≡ w.db))
        ⊎ ((u : User) × (with_email email w.db ≡ some u) × ResetIssued u (tick w) token w')
  unfolding forgot_password issue_reset select_user_by_email
  forgot_password-Returns email w w' token e =
      outcome (with_email email w.db) refl
        (bind-select w w' token x (λ _ d. with_email email d) _ e)
    where
      outcome :
          (found : Option User)
          → with_email email w.db ≡ found
          → Returns (issue_reset x c found) (tick w) token w'
          → ((with_email email w.db ≡ none) × (token ≡ "") × (w'.db ≡ w.db))
            ⊎ ((u : User) × (with_email email w.db ≡ some u) × ResetIssued u (tick w) token w')
      outcome none found e =
          let (given, last) = Returns-pure _ (tick w) w' token e in
          inl (found, given, ap (λ v. v.db) last)
      outcome (some u) found e = inr (u, found, issue_reset-Returns u (tick w) w' token e)
