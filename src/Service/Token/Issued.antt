-- ===== src/Service/Token/Issued.antt =====
-- What `generate_access_token` and `generate_refresh_token` have done when they return.
use rustpress_plugin_authpro.Base.{
  ℕ, suc, ◌≡◌, ap, subst, ◌∙◌, String, str_append, Bool, false, Option, none, some, [], ◌∷◌, ◌++◌,
  any, ◌==◌,
}
use rustpress_plugin_authpro.Text.{base64_url_encode}
use rustpress_plugin_authpro.Error.{ok, ok_or, or_panic, AuthError}
use rustpress_plugin_authpro.Models.{Uuid, Instant, User, RefreshToken}
use rustpress_plugin_authpro.Models.Claims.{RefreshTokenClaims}
use rustpress_plugin_authpro.Config.{AuthConfig}
use rustpress_plugin_authpro.Externals.{Externals, Validation}
use rustpress_plugin_authpro.Db.RefreshTokens.{new_token}
use rustpress_plugin_authpro.Db.Effects.{insert_refresh_token-done}
use rustpress_plugin_authpro.Exec.{World, Exec, tick, ◌>>=◌}
use rustpress_plugin_authpro.Exec.Inversion.{
  Returns, Returns-bind, Returns-lift, Returns-pure, bind-lift, bind-draw, bind-run_sql,
}
use rustpress_plugin_authpro.Service.Token.{
  hash_token, expiry, access_claims, generate_access_token, refresh_claims, generate_refresh_token,
  decode_refresh_token,
}

pub ok_or-ok : {A : Type 0} (o : Option A) (e : AuthError) (a : A) → ok_or o e ≡ ok a → o ≡ some a
ok_or-ok none e a h = cc
ok_or-ok (some b) e a h = cc

or_panic-ok : {A : Type 0} (o : Option A) (m : String) (a : A) → or_panic o m ≡ ok a → o ≡ some a
or_panic-ok none m a h = cc
or_panic-ok (some b) m a h = cc

module _ (x : Externals) (c : AuthConfig) where
  pub record AccessIssued (u : User) (w : World) (token : String) (w' : World) : Type 0 where
    pub exp : Instant
    pub expires : x.add_seconds (x.utc_now w.step) c.access_token_expiration ≡ some exp
    pub encoded :
        x.encode_access c.jwt_secret
          (access_claims x c u (x.utc_now w.step) exp (x.new_uuid (suc w.step)))
        ≡ some token
    pub stays : w'.db ≡ w.db

  pub generate_access_token-Returns :
      (u : User) (w w' : World) (token : String)
      → Returns (generate_access_token x c u) w token w'
      → AccessIssued u w token w'
  unfolding generate_access_token expiry
  generate_access_token-Returns u w w' token e =
      let e1 = bind-draw w w' token x.utc_now _ e in
      let (exp, expires, e2) = bind-lift (tick w) w' token _ _ e1 in
      let e3 = bind-draw (tick w) w' token x.new_uuid _ e2 in
      let (encoded, last) = Returns-lift _ (tick (tick w)) w' token e3 in
      record {
        exp = exp;
        expires = or_panic-ok _ _ exp expires;
        encoded = ok_or-ok _ _ token encoded;
        stays = ap (λ v. v.db) last;
      }

  -- The row that a refresh token adds, made of the draws that begin at a step.
  abbrev pub refresh_row : Uuid → Instant → Option String → Option String → ℕ → RefreshToken
  refresh_row user exp ip agent s =
      new_token (x.new_uuid s) user
        (hash_token x c (base64_url_encode (x.random_bytes (suc (suc s))))) exp ip agent
        (x.db_now (suc (suc (suc s))))

  pub record RefreshIssued (user : Uuid) (ip agent : Option String) (w : World) (token : String)
      (w' : World) : Type 0 where
    pub exp : Instant
    pub jwt : String
    pub expires : x.add_seconds (x.utc_now (suc w.step)) c.refresh_token_expiration ≡ some exp
    pub encoded :
        x.encode_refresh c.jwt_secret
          (refresh_claims x c user (x.new_uuid w.step) (x.utc_now (suc w.step)) exp)
        ≡ some jwt
    pub combined :
        token
        ≡ str_append jwt (str_append "." (base64_url_encode (x.random_bytes (suc (suc w.step)))))
    pub stored : w'.db ≡ record w.db {
      refresh_tokens = w.db.refresh_tokens ++ refresh_row user exp ip agent w.step ∷ [];
    }
    pub fresh_id : any (λ t. t.id == x.new_uuid w.step) w.db.refresh_tokens ≡ false

  -- A refresh token that is returned is the JWT of a new identifier, a dot and the encoded random
  -- bytes. The one write is a row for it, live, of that user, under that identifier, which no row
  -- had, with the configured expiry; the row keeps the hash of the random part.
  pub generate_refresh_token-Returns :
      (user : Uuid) (ip agent : Option String) (w w' : World) (token : String)
      → Returns (generate_refresh_token x c user ip agent) w token w'
      → RefreshIssued user ip agent w token w'
  unfolding generate_refresh_token expiry
  generate_refresh_token-Returns user ip agent w w' token e =
      let e1 = bind-draw w w' token x.new_uuid _ e in
      let e2 = bind-draw (tick w) w' token x.utc_now _ e1 in
      let (exp, expires, e3) = bind-lift (tick (tick w)) w' token _ _ e2 in
      let e4 = bind-draw (tick (tick w)) w' token x.random_bytes _ e3 in
      let (_, d, inserted, e5) = bind-run_sql (tick (tick (tick w))) w' token x _ _ e4 in
      let (moved, fresh_id, _) =
        insert_refresh_token-done _ w.db d _ user _ exp ip agent tt inserted in
      let (jwt, encoded, e6) = bind-lift _ w' token _ _ e5 in
      let (combined, last) = Returns-pure _ _ w' token e6 in
      record {
        exp = exp;
        jwt = jwt;
        expires = or_panic-ok _ _ exp expires;
        encoded = ok_or-ok _ _ jwt encoded;
        combined = combined;
        stored = ap (λ v. v.db) last ∙ moved;
        fresh_id = fresh_id;
      }

  -- The validation of a refresh JWT.
  abbrev pub refresh_validation : Bool → Validation
  refresh_validation checks = record {
    issuer = c.jwt_issuer;
    audience = none;
    checks_signature = checks;
  }

  pub bind-decode_refresh_token :
      {B : Type 0} (w w' : World) (b : B) (checks : Bool) (jwt : String)
      (f : RefreshTokenClaims → Exec B)
      → Returns (decode_refresh_token x c checks jwt >>= f) w b w'
      → (claims : RefreshTokenClaims) × (x.decode_refresh c.jwt_secret
            (refresh_validation checks)
            (x.utc_now w.step)
            jwt
          ≡ some claims)
        × Returns (f claims) (tick w) b w'
  unfolding decode_refresh_token
  bind-decode_refresh_token w w' b checks jwt f e =
      let (claims, v, read, rest) = Returns-bind (decode_refresh_token x c checks jwt) f w w' b e in
      let (decoded, last) = Returns-lift _ (tick w) v claims (bind-draw w v claims _ _ read) in
      (claims, ok_or-ok _ _ claims decoded, subst (λ s. Returns (f claims) s b w') last rest)
