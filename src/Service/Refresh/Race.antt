-- ===== src/Service/Refresh/Race.antt =====
-- Two refreshes at once with one token. `refresh_tokens` runs no transaction: other requests come
-- between its check of the row and its UPDATE of the row.
use rustpress_plugin_authpro.Base.{
  ℕ, suc, ◌≡◌, refl, ◌∙◌, String, str_append, true, Option, none, some, find_by,
}
use rustpress_plugin_authpro.Text.Split.{rsplit_dot}
use rustpress_plugin_authpro.Error.{ok, ok_or, invalid_token}
use rustpress_plugin_authpro.Models.{User, RefreshToken, can_login, is_valid}
use rustpress_plugin_authpro.Models.Claims.{RefreshTokenClaims}
use rustpress_plugin_authpro.Models.Responses.{TokenResponse}
use rustpress_plugin_authpro.Config.{AuthConfig}
use rustpress_plugin_authpro.Externals.{Externals}
use rustpress_plugin_authpro.Db.Users.{user_id, select_user}
use rustpress_plugin_authpro.Db.RefreshTokens.{select_refresh_token, revoke_token}
use rustpress_plugin_authpro.Exec.{World, Exec, pure, lift, draw, run_sql, tick, ◌>>=◌, ◌>>◌}
use rustpress_plugin_authpro.Exec.Stepping.{bind-nest, bind-of_returns}
use rustpress_plugin_authpro.Service.Token.{hash_token, decode_refresh_token}
use rustpress_plugin_authpro.Service.Token.Issued.{refresh_validation}
use rustpress_plugin_authpro.Service.Token.Issues.{
  AccessReady, generate_access_token-issues, RefreshReady, refresh_string, with_refresh_row,
  generate_refresh_token-issues,
}
use rustpress_plugin_authpro.Service.Account.{find_user}
use rustpress_plugin_authpro.Service.Refresh.{check_stored, rotate, refresh_tokens}
use rustpress_plugin_authpro.Service.Refresh.Complete.{with_revoked}
use rustpress_plugin_authpro.Service.Refresh.Rotation.{stored_token}

module _ (x : Externals) (c : AuthConfig) where
  -- `refresh_tokens` up to the check of the row.
  unfoldable pub check_presented : String → Exec RefreshTokenClaims
  check_presented refresh_token = do
    parts ← lift (ok_or (rsplit_dot refresh_token) invalid_token)
    claims ← decode_refresh_token x c true parts.1
    found ← run_sql x (select_refresh_token claims.tid (hash_token x c parts.0))
    stored ← lift (ok_or found invalid_token)
    now ← draw x.utc_now
    check_stored x c claims.sub stored (is_valid stored now)
    pure claims

  -- The two parts are all of `refresh_tokens`.
  check_presented-rotate :
      (token : String) (ip agent : Option String) (w : World)
      → (check_presented token >>= λ claims. rotate x c claims ip agent) w
        ≡ refresh_tokens x c token ip agent w
  unfolding check_presented refresh_tokens pure
  check_presented-rotate token ip agent w = bind-nest _ _ _ _ w (λ parts v.
      bind-nest _ _ _ _ v (λ claims v. bind-nest _ _ _ _ v (λ found v.
        bind-nest _ _ _ _ v (λ stored v.
          bind-nest _ _ _ _ v
            (λ now v. bind-nest _ _ _ _ v (λ _ v. bind-of_returns _ _ v v claims refl))))))

  -- Two requests with the same token, where the second checks the row before the first revokes it.
  unfoldable pub race :
      String
      → Option String
      → Option String
      → Option String
      → Option String
      → Exec (TokenResponse × TokenResponse)
  race token ip agent ip' agent' = do
    first ← check_presented token
    second ← check_presented token
    r ← rotate x c first ip agent
    r' ← rotate x c second ip' agent'
    pure (r, r')

  -- The token is signed and stored, and its row is valid.
  pub record PresentReady (token : String) (claims : RefreshTokenClaims) (w : World) : Type 0 where
    pub token_string : String
    pub jwt : String
    pub stored : RefreshToken
    pub healthy : (n : ℕ) → x.db_fault n ≡ none
    pub split : rsplit_dot token ≡ some (token_string, jwt)
    pub decoded :
        x.decode_refresh c.jwt_secret (refresh_validation x c true) (x.utc_now w.step) jwt
        ≡ some claims
    pub found :
        stored_token claims.tid (hash_token x c token_string) w.db.refresh_tokens ≡ some stored
    pub valid : is_valid stored (x.utc_now (suc (suc w.step))) ≡ true

  check_presented-passes :
      (token : String) (claims : RefreshTokenClaims) (w : World)
      → PresentReady token claims w
      → check_presented token w ≡ (ok claims, tick (tick (tick w)))
  unfolding check_presented decode_refresh_token select_refresh_token check_stored ◌>>=◌
  check_presented-passes token claims w h = simp (h.healthy, h.split, h.decoded, h.found, h.valid)

  -- The user may log in, and new tokens can be made and stored.
  pub record RotateReady (claims : RefreshTokenClaims) (ip : Option String) (w : World) (u : User)
      (access : String) : Type 0 where
    pub healthy : (n : ℕ) → x.db_fault n ≡ none
    pub by_id : find_by user_id claims.sub w.db.users ≡ some u
    pub allowed : can_login u (x.utc_now (suc w.step)) ≡ true
    pub access_ready : AccessReady x c u (tick (tick w)) access
    pub refresh_ready : RefreshReady x c u.id ip (tick (tick (tick (tick w))))

  abbrev pub rotated_world :
      (claims : RefreshTokenClaims) (ip agent : Option String) (w : World) (u : User)
      (access : String)
      → RotateReady claims ip w u access
      → World
  rotated_world claims ip agent w u access h =
      with_revoked x c claims.tid
        (with_refresh_row x c u.id h.refresh_ready.exp ip agent (tick (tick (tick (tick w)))))

  abbrev pub rotated_tokens :
      (claims : RefreshTokenClaims) (ip : Option String) (w : World) (u : User) (access : String)
      → RotateReady claims ip w u access
      → TokenResponse
  rotated_tokens claims ip w u access h = record {
    access_token = access;
    refresh_token =
        str_append h.refresh_ready.jwt
          (str_append "." (refresh_string x c (tick (tick (tick (tick w))))));
    token_type = "Bearer";
    expires_in = c.access_token_expiration;
  }

  rotate-succeeds :
      (claims : RefreshTokenClaims) (ip agent : Option String) (w : World) (u : User)
      (access : String) (h : RotateReady claims ip w u access)
      → rotate x c claims ip agent w
        ≡ (ok (rotated_tokens claims ip w u access h), rotated_world claims ip agent w u access h)
  unfolding rotate find_user select_user revoke_token ◌>>=◌
  rotate-succeeds claims ip agent w u access h = simp (
    h.healthy,
    h.by_id,
    h.allowed,
    generate_access_token-issues x c u (tick (tick w)) access h.access_ready,
    generate_refresh_token-issues x c u.id ip agent (tick (tick (tick (tick w)))) h.refresh_ready,
  )

  -- A refresh token can be used twice at once: where both requests check its row before either
  -- revokes it, both succeed, and the use of one token is answered by two pairs of new tokens.
  pub race-both :
      (token : String) (ip agent ip' agent' : Option String) (w : World)
      (claims : RefreshTokenClaims) (u : User) (access access' : String)
      (p : PresentReady token claims w)
      → PresentReady token claims (tick (tick (tick w)))
      → (h : RotateReady claims ip (tick (tick (tick (tick (tick (tick w)))))) u access)
      → (h' : RotateReady claims ip'
          (rotated_world claims ip agent (tick (tick (tick (tick (tick (tick w)))))) u access h)
          u
          access')
      → race token ip agent ip' agent' w ≡ (
        ok (
          rotated_tokens claims ip (tick (tick (tick (tick (tick (tick w)))))) u access h,
          rotated_tokens claims ip'
              (rotated_world claims ip agent (tick (tick (tick (tick (tick (tick w)))))) u access h)
              u
              access'
              h',
        ),
        rotated_world claims ip' agent'
            (rotated_world claims ip agent (tick (tick (tick (tick (tick (tick w)))))) u access h)
            u
            access'
            h',
      )
  unfolding race pure
  race-both token ip agent ip' agent' w claims u access access' p p' h h' =
      bind-of_returns _ _ w _ claims (check_presented-passes token claims w p)
      ∙ bind-of_returns _ _ _ _ claims
          (check_presented-passes token claims (tick (tick (tick w))) p')
      ∙ bind-of_returns _ _ _ _ _ (rotate-succeeds claims ip agent _ u access h)
      ∙ bind-of_returns _ _ _ _ _ (rotate-succeeds claims ip' agent' _ u access' h')
