-- ===== src/Service/Verification/AfterAsk.antt =====
-- An email verification, from the request for a token to the login that demands it.
use rustpress_plugin_authpro.Base.{
  ℕ, suc, ◌≡◌, refl, String, str_eq, true, false, none, some, find_by, find-update_by, List, [],
  ◌∷◌, ◌++◌, ◌==◌, ==_refl, any, any-of_find_where, ltb, arith,
}
use rustpress_plugin_authpro.Text.{base64_url_encode}
use rustpress_plugin_authpro.Error.{ok}
use rustpress_plugin_authpro.Models.{Instant, User, OneTimeToken, is_active, is_email_verified}
use rustpress_plugin_authpro.Config.{AuthConfig}
use rustpress_plugin_authpro.Externals.{Externals}
use rustpress_plugin_authpro.Db.Users.{user_id, verified}
use rustpress_plugin_authpro.Db.OneTimeTokens.{new_one_time, supersede_tokens, insert_token}
use rustpress_plugin_authpro.Exec.{World, ◌>>=◌}
use rustpress_plugin_authpro.Service.Token.{hash_token, expiry}
use rustpress_plugin_authpro.Service.Token.Issues.{hash_token-fits}
use rustpress_plugin_authpro.Service.Reset.Sent.{
  superseded, superseded-new_id, superseded-new_hash, superseded-usable,
}
use rustpress_plugin_authpro.Service.Verification.{create_email_verification, verify_email}
use rustpress_plugin_authpro.Service.Verification.Activation.{verify_email_lem}

module _ (x : Externals) (c : AuthConfig) (w : World) (u : User) where
  -- The token that is sent.
  abbrev pub sent : String
  sent = base64_url_encode (x.random_bytes w.step)

  -- The user is there, and the row for the token can be stored.
  pub record AskReady : Type 0 where
    pub exp : Instant
    pub healthy : (n : ℕ) → x.db_fault n ≡ none
    pub known : find_by user_id u.id w.db.users ≡ some u
    pub expires : x.add_seconds (x.utc_now (suc w.step)) c.email_verification_expiration ≡ some exp
    pub new_id :
        any (λ t. t.id == x.new_uuid (suc (suc (suc w.step)))) w.db.email_verification_tokens
        ≡ false
    pub new_hash :
        any (λ t. str_eq t.token_hash (hash_token x c sent)) w.db.email_verification_tokens ≡ false

  module _ (h : AskReady) where
    abbrev pub sent_row : OneTimeToken
    sent_row =
        new_one_time (x.new_uuid (suc (suc (suc w.step)))) u.id (hash_token x c sent) h.exp
          (x.db_now (suc (suc (suc (suc w.step)))))

    abbrev superseded_tokens : List OneTimeToken
    superseded_tokens = superseded u.id (x.db_now (suc (suc w.step))) w.db.email_verification_tokens

    abbrev pub after_ask : World
    after_ask = record {
      db = record w.db { email_verification_tokens = superseded_tokens ++ sent_row ∷ [] };
      step = suc (suc (suc (suc (suc w.step))));
    }

    new_id' : any (λ t. t.id == x.new_uuid (suc (suc (suc w.step)))) superseded_tokens ≡ false
    new_id' = superseded-new_id u.id _ w.db.email_verification_tokens _ h.new_id

    new_hash' : any (λ t. str_eq t.token_hash (hash_token x c sent)) superseded_tokens ≡ false
    new_hash' = superseded-new_hash u.id _ w.db.email_verification_tokens _ h.new_hash

    has_row : any (λ v. v.id == u.id) w.db.users ≡ true
    has_row = any-of_find_where (λ v. v.id == u.id) w.db.users u h.known

    create_email_verification-issues : create_email_verification x c u.id w ≡ (ok sent, after_ask)
    unfolding create_email_verification expiry supersede_tokens insert_token ◌>>=◌
    create_email_verification-issues =
        simp (h.healthy, h.expires, new_id', new_hash', has_row, hash_token-fits x c sent)

    -- The user after the verification.
    abbrev pub verified_user : User
    verified_user = verified (x.db_now (suc after_ask.step)) u

    -- A user can verify their email: a request for it returns a token, where its row can be stored,
    -- and a verification that comes next with the token, before it expires, succeeds. The user's row
    -- then has a verified email and is active, as a login demands.
    pub create_email_verification-verify_email :
        ltb (x.db_now after_ask.step) h.exp ≡ true
        → (w' : World) × (create_email_verification x c u.id w ≡ (ok sent, after_ask))
          × (verify_email x c sent after_ask ≡ (ok verified_user, w'))
          × (find_by user_id u.id w'.db.users ≡ some verified_user)
          × (is_email_verified verified_user ≡ true)
          × (is_active verified_user.status ≡ true)
    unfolding is_email_verified
    create_email_verification-verify_email in_time = (
      _,
      create_email_verification-issues,
      verify_email_lem x c sent after_ask sent_row u h.healthy
          (superseded-usable u.id _ w.db.email_verification_tokens _ _ h.exp _ _ h.new_hash in_time)
          h.known,
      rw
          (find-update_by user_id u.id u.id (verified (x.db_now (suc after_ask.step))) (λ v. refl)
            w.db.users)
          (ground (arith, h.known, ==_refl u.id)),
      refl,
      refl,
    )
