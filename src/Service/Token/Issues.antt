-- ===== src/Service/Token/Issues.antt =====
-- When `generate_access_token` and `generate_refresh_token` return a token.
use rustpress_plugin_authpro.Base.{
  suc, ◌≡◌, String, str_append, str_eq, true, false, Option, none, some, [], ◌∷◌, ◌++◌, arith, any,
  ◌==◌,
}
use rustpress_plugin_authpro.Text.{base64_url_encode}
use rustpress_plugin_authpro.Text.Width.{count-hex_u64}
use rustpress_plugin_authpro.Error.{ok}
use rustpress_plugin_authpro.Models.{Uuid, Instant, User}
use rustpress_plugin_authpro.Config.{AuthConfig}
use rustpress_plugin_authpro.Externals.{Externals}
use rustpress_plugin_authpro.Db.{fits, fits?}
use rustpress_plugin_authpro.Db.RefreshTokens.{insert_refresh_token}
use rustpress_plugin_authpro.Exec.{World, tick, ◌>>=◌}
use rustpress_plugin_authpro.Service.Token.{
  hash_token, expiry, access_claims, refresh_claims, generate_access_token, generate_refresh_token,
}
use rustpress_plugin_authpro.Service.Token.Issued.{refresh_row}

module _ (x : Externals) (c : AuthConfig) where
  -- The expiry is a date, and jsonwebtoken encodes the claims.
  pub record AccessReady (u : User) (w : World) (token : String) : Type 0 where
    pub exp : Instant
    pub expires : x.add_seconds (x.utc_now w.step) c.access_token_expiration ≡ some exp
    pub encoded :
        x.encode_access c.jwt_secret
          (access_claims x c u (x.utc_now w.step) exp (x.new_uuid (suc w.step)))
        ≡ some token

  pub generate_access_token-issues :
      (u : User) (w : World) (token : String)
      → AccessReady u w token
      → generate_access_token x c u w ≡ (ok token, tick (tick w))
  unfolding generate_access_token expiry ◌>>=◌
  generate_access_token-issues u w token h = simp (h.expires, h.encoded)

  -- A stored hash fits the column VARCHAR(255).
  pub hash_token-fits : (token : String) → fits 255 (hash_token x c token) ≡ true
  unfolding hash_token
  hash_token-fits token = let short = count-hex_u64 (x.finish token c.jwt_secret) in ground arith

  abbrev pub refresh_string : World → String
  refresh_string w = base64_url_encode (x.random_bytes (suc (suc w.step)))

  -- The INSERT reaches the database, its address fits the column, the identifier and the hash are
  -- new, and the user is there.
  pub record RefreshReady (user : Uuid) (ip : Option String) (w : World) : Type 0 where
    pub exp : Instant
    pub jwt : String
    pub healthy : x.db_fault (suc (suc (suc w.step))) ≡ none
    pub expires : x.add_seconds (x.utc_now (suc w.step)) c.refresh_token_expiration ≡ some exp
    pub encoded :
        x.encode_refresh c.jwt_secret
          (refresh_claims x c user (x.new_uuid w.step) (x.utc_now (suc w.step)) exp)
        ≡ some jwt
    pub ip_fits : fits? 45 ip ≡ true
    pub new_id : any (λ t. t.id == x.new_uuid w.step) w.db.refresh_tokens ≡ false
    pub new_hash :
        any (λ t. str_eq t.token_hash (hash_token x c (refresh_string w))) w.db.refresh_tokens
        ≡ false
    pub known : any (λ u. u.id == user) w.db.users ≡ true

  -- The world after a refresh token was stored.
  abbrev pub with_refresh_row : Uuid → Instant → Option String → Option String → World → World
  with_refresh_row user exp ip agent w = record {
    db = record w.db {
      refresh_tokens = w.db.refresh_tokens ++ refresh_row x c user exp ip agent w.step ∷ [];
    };
    step = suc (suc (suc (suc w.step)));
  }

  pub generate_refresh_token-issues :
      (user : Uuid) (ip agent : Option String) (w : World) (h : RefreshReady user ip w)
      → generate_refresh_token x c user ip agent w ≡ (
        ok (str_append h.jwt (str_append "." (refresh_string w))),
        with_refresh_row user h.exp ip agent w,
      )
  unfolding generate_refresh_token expiry insert_refresh_token ◌>>=◌
  generate_refresh_token-issues user ip agent w h = simp (
    h.expires,
    h.healthy,
    hash_token-fits (refresh_string w),
    h.ip_fits,
    h.new_id,
    h.new_hash,
    h.known,
    h.encoded,
  )
