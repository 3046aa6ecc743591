-- ===== src/Service/Reset/AfterForgot.antt =====
-- A forgotten password, from the request for a token to the reset with it.
use rustpress_plugin_authpro.Base.{
  ℕ, suc, ◌≡◌, String, str_eq, true, false, none, some, List, [], ◌∷◌, ◌++◌, ◌==◌, any, ltb,
}
use rustpress_plugin_authpro.Text.{base64_url_encode}
use rustpress_plugin_authpro.Error.{ok}
use rustpress_plugin_authpro.Models.{Instant, User, OneTimeToken}
use rustpress_plugin_authpro.Models.Requests.{ResetPasswordRequest}
use rustpress_plugin_authpro.Config.{AuthConfig}
use rustpress_plugin_authpro.Externals.{Externals}
use rustpress_plugin_authpro.Db.{fits}
use rustpress_plugin_authpro.Db.Users.{select_user_by_email}
use rustpress_plugin_authpro.Db.OneTimeTokens.{new_one_time, supersede_tokens, insert_token}
use rustpress_plugin_authpro.Exec.{World, ◌>>=◌}
use rustpress_plugin_authpro.Service.Password.{hash_with_salt, validate_password}
use rustpress_plugin_authpro.Service.Token.{hash_token, expiry}
use rustpress_plugin_authpro.Service.Token.Issues.{hash_token-fits}
use rustpress_plugin_authpro.Service.Login.Lockout.{with_email}
use rustpress_plugin_authpro.Service.Reset.{issue_reset, forgot_password, reset_password}
use rustpress_plugin_authpro.Service.Reset.Done.{usable_token}
use rustpress_plugin_authpro.Service.Reset.Sent.{
  superseded, superseded-new_id, superseded-new_hash, superseded-usable,
}
use rustpress_plugin_authpro.Service.Reset.Complete.{ResetReady, reset_succeeds}

module _ (x : Externals) (c : AuthConfig) (email : String) (w : World) (u : User) where
  -- The token that is sent.
  abbrev pub sent : String
  sent = base64_url_encode (x.random_bytes (suc w.step))

  abbrev superseded_tokens : List OneTimeToken
  superseded_tokens = superseded u.id (x.db_now (suc (suc (suc w.step)))) w.db.password_reset_tokens

  -- A user has the email, and the row for the token can be stored.
  pub record ForgotReady : Type 0 where
    pub exp : Instant
    pub healthy : (n : ℕ) → x.db_fault n ≡ none
    pub by_email : with_email email w.db ≡ some u
    pub expires :
        x.add_seconds (x.utc_now (suc (suc w.step))) c.password_reset_expiration ≡ some exp
    pub new_id :
        any (λ t. t.id == x.new_uuid (suc (suc (suc (suc w.step))))) w.db.password_reset_tokens
        ≡ false
    pub new_hash :
        any (λ t. str_eq t.token_hash (hash_token x c sent)) w.db.password_reset_tokens ≡ false
    pub known : any (λ v. v.id == u.id) w.db.users ≡ true

  module _ (h : ForgotReady) where
    abbrev pub sent_row : OneTimeToken
    sent_row =
        new_one_time (x.new_uuid (suc (suc (suc (suc w.step))))) u.id (hash_token x c sent) h.exp
          (x.db_now (suc (suc (suc (suc (suc w.step))))))

    abbrev pub after_forgot : World
    after_forgot = record {
      db = record w.db { password_reset_tokens = superseded_tokens ++ sent_row ∷ [] };
      step = suc (suc (suc (suc (suc (suc w.step)))));
    }

    new_id' : any (λ t. t.id == x.new_uuid (suc (suc (suc (suc w.step))))) superseded_tokens ≡ false
    new_id' = superseded-new_id u.id _ w.db.password_reset_tokens _ h.new_id

    new_hash' : any (λ t. str_eq t.token_hash (hash_token x c sent)) superseded_tokens ≡ false
    new_hash' = superseded-new_hash u.id _ w.db.password_reset_tokens _ h.new_hash

    pub forgot_password-issues : forgot_password x c email w ≡ (ok sent, after_forgot)
    unfolding forgot_password issue_reset select_user_by_email expiry supersede_tokens insert_token
        ◌>>=◌
    forgot_password-issues =
        simp
          (h.healthy, h.by_email, h.expires, new_id', new_hash', h.known, hash_token-fits x c sent)

    -- The token that was sent comes back in time, with a strong password that argon2 hashes.
    pub record ComesBack (req : ResetPasswordRequest) (hash : String) : Type 0 where
      pub same : req.token ≡ sent
      pub in_time : ltb (x.db_now after_forgot.step) h.exp ≡ true
      pub strong : validate_password x c req.password ≡ ok tt
      pub hashed : hash_with_salt x c req.password (x.salt (suc after_forgot.step)) ≡ ok hash
      pub hash_fits : fits 255 hash ≡ true

    module _ (req : ResetPasswordRequest) (hash : String) (k : ComesBack req hash) where
      sent_found :
          usable_token
            (hash_token x c sent)
            (x.db_now after_forgot.step)
            after_forgot.db.password_reset_tokens
          ≡ some sent_row
      sent_found =
          superseded-usable u.id _ w.db.password_reset_tokens _ _ h.exp _ _ h.new_hash k.in_time

      ready : ResetReady x c req after_forgot
      ready = record {
        token = sent_row;
        hash = hash;
        healthy = h.healthy;
        strong = k.strong;
        found = rw k.same sent_found;
        hashed = k.hashed;
        hash_fits = k.hash_fits;
      }

      -- Who forgot a password can set a new one: a request for a user's email returns a token,
      -- where its row can be stored, and a reset that comes next with it, in time and with a
      -- strong password, succeeds.
      pub forgot_password-reset_password :
          (w' : World) × (forgot_password x c email w ≡ (ok sent, after_forgot))
          × (reset_password x c req after_forgot ≡ (ok tt, w'))
      forgot_password-reset_password =
          (_, forgot_password-issues, reset_succeeds x c req after_forgot ready)
