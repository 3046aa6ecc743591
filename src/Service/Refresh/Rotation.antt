-- ===== src/Service/Refresh/Rotation.antt =====
-- A refresh that succeeds: what was checked, and the rotation that it leaves behind.
use rustpress_plugin_authpro.Base.{
  suc, ◌≡◌, refl, ap, subst, sym, ◌∙◌, String, str_eq, Bool, true, false, ◌&&◌, Option, some, List,
  find_where, find_by, update_by, ◌==◌, not-eq-false,
}
use rustpress_plugin_authpro.Text.Split.{rsplit_dot}
use rustpress_plugin_authpro.Error.{err, token_revoked}
use rustpress_plugin_authpro.Models.{Uuid, User, RefreshToken, can_login, is_revoked, is_valid}
use rustpress_plugin_authpro.Models.Responses.{TokenResponse}
use rustpress_plugin_authpro.Models.Claims.{RefreshTokenClaims}
use rustpress_plugin_authpro.Config.{AuthConfig}
use rustpress_plugin_authpro.Externals.{Externals}
use rustpress_plugin_authpro.Db.Users.{user_id}
use rustpress_plugin_authpro.Db.RefreshTokens.{token_id, revoked_now, select_refresh_token}
use rustpress_plugin_authpro.Db.Effects.{revoke_token-done}
use rustpress_plugin_authpro.Exec.{World, tick, lift}
use rustpress_plugin_authpro.Exec.Inversion.{
  Returns, Returns-bind, Returns-lift, Returns-pure, bind-draw, bind-run_sql, bind-fail_if,
  bind-ok_or, bind-select,
}
use rustpress_plugin_authpro.Service.Token.{
  hash_token, generate_access_token, generate_refresh_token,
}
use rustpress_plugin_authpro.Service.Token.Issued.{
  AccessIssued, generate_access_token-Returns, RefreshIssued, generate_refresh_token-Returns,
  refresh_validation, bind-decode_refresh_token,
}
use rustpress_plugin_authpro.Service.Account.Returned.{bind-find_user}
use rustpress_plugin_authpro.Service.Refresh.{revoke_on_reuse, check_stored, rotate, refresh_tokens}

-- The SELECT of `refresh_tokens`.
abbrev pub stored_token : Uuid → String → List RefreshToken → Option RefreshToken
stored_token id hash = find_where (λ t. t.id == id && str_eq t.token_hash hash)

module _ (x : Externals) (c : AuthConfig) where
  check_stored-Returns :
      (sub : Uuid) (t : RefreshToken) (b : Bool) (w w' : World) (a : Unit {0})
      → Returns (check_stored x c sub t b) w a w'
      → (b ≡ true) × (w' ≡ w)
  unfolding check_stored
  check_stored-Returns sub t true w w' a e = (refl, (Returns-pure tt w w' a e).1)
  check_stored-Returns sub t false w w' a e =
      let (_, v, _, fails) =
        Returns-bind (revoke_on_reuse x c sub (is_revoked t)) (λ _. lift (err token_revoked)) w w' a
          e in
      cc ((Returns-lift _ v w' a fails).0)

  pub record Rotated (claims : RefreshTokenClaims) (ip agent : Option String) (w : World)
      (r : TokenResponse) (w' : World) : Type 0 where
    pub user : User
    pub known : find_by user_id claims.sub w.db.users ≡ some user
    pub allowed : can_login user (x.utc_now (suc w.step)) ≡ true
    pub before_refresh : World
    pub after_refresh : World
    pub access : AccessIssued x c user (tick (tick w)) r.access_token before_refresh
    pub refresh : RefreshIssued x c user.id ip agent before_refresh r.refresh_token after_refresh
    pub rotated :
        w'.db.refresh_tokens
        ≡ update_by token_id claims.tid
            (revoked_now (x.db_now after_refresh.step))
            after_refresh.db.refresh_tokens

  rotate-Returns :
      (claims : RefreshTokenClaims) (ip agent : Option String) (w w' : World) (r : TokenResponse)
      → Returns (rotate x c claims ip agent) w r w'
      → Rotated claims ip agent w r w'
  unfolding rotate
  rotate-Returns claims ip agent w w' r e =
      let (u, known, e1) = bind-find_user x w w' r claims.sub _ e in
      let e2 = bind-draw (tick w) w' r x.utc_now _ e1 in
      let (allowed, e3) = bind-fail_if (tick (tick w)) w' r _ _ _ e2 in
      let (access, v2, made, e4) =
        Returns-bind (generate_access_token x c u) _ (tick (tick w)) w' r e3 in
      let (token, v3, stored, e5) =
        Returns-bind (generate_refresh_token x c u.id ip agent) _ v2 w' r e4 in
      let (_, d, revoked, e6) = bind-run_sql v3 w' r x _ _ e5 in
      let (given, stays) = Returns-pure _ _ w' r e6 in
      record {
        user = u;
        known = known;
        allowed = not-eq-false _ allowed;
        before_refresh = v2;
        after_refresh = v3;
        access =
            subst (λ t. AccessIssued x c u (tick (tick w)) t v2)
              (sym (ap (λ r. r.access_token) given))
              (generate_access_token-Returns x c u _ v2 access made);
        refresh =
            subst (λ t. RefreshIssued x c u.id ip agent v2 t v3)
              (sym (ap (λ r. r.refresh_token) given))
              (generate_refresh_token-Returns x c u.id ip agent v2 v3 token stored);
        rotated =
            ap (λ v. v.db.refresh_tokens) stays
            ∙ ap (λ d. d.refresh_tokens) (revoke_token-done _ v3.db d claims.tid tt revoked);
      }

  -- The token that was presented, and the row that it matched.
  pub record Presented (token : String) (w : World) : Type 0 where
    pub token_string : String
    pub jwt : String
    pub split : rsplit_dot token ≡ some (token_string, jwt)
    pub claims : RefreshTokenClaims
    pub decoded :
        x.decode_refresh c.jwt_secret (refresh_validation x c true) (x.utc_now w.step) jwt
        ≡ some claims
    pub stored : RefreshToken
    pub found :
        stored_token claims.tid (hash_token x c token_string) w.db.refresh_tokens ≡ some stored
    pub fresh : is_valid stored (x.utc_now (suc (suc w.step))) ≡ true

  -- A refresh succeeds only for a token whose JWT decodes with its signature checked, whose row is
  -- in the table under its id and the hash of its random part, neither expired nor revoked, and
  -- whose user may log in. It issues new tokens to that user and revokes the token that was
  -- presented.
  pub refresh_tokens-Returns :
      (token : String) (ip agent : Option String) (w w' : World) (r : TokenResponse)
      → Returns (refresh_tokens x c token ip agent) w r w'
      → (p : Presented token w) × Rotated p.claims ip agent (tick (tick (tick w))) r w'
  unfolding refresh_tokens select_refresh_token
  refresh_tokens-Returns token ip agent w w' r e =
      let (parts, split, e1) = bind-ok_or w w' r _ _ _ e in
      let (claims, decoded, e2) = bind-decode_refresh_token x c w w' r true parts.1 _ e1 in
      let e3 =
        bind-select (tick w) w' r x
          (λ _ d. stored_token claims.tid (hash_token x c parts.0) d.refresh_tokens) _ e2 in
      let (stored, found, e4) = bind-ok_or (tick (tick w)) w' r _ _ _ e3 in
      let e5 = bind-draw (tick (tick w)) w' r x.utc_now _ e4 in
      let (_, v, passed, e6) =
        Returns-bind (check_stored x c claims.sub stored _) _ (tick (tick (tick w))) w' r e5 in
      let (fresh, stays) = check_stored-Returns claims.sub stored _ _ v tt passed in
      (
        record {
          token_string = parts.0;
          jwt = parts.1;
          split = split;
          claims = claims;
          decoded = decoded;
          stored = stored;
          found = found;
          fresh = fresh;
        },
        rotate-Returns claims ip agent _ w' r
            (subst (λ s. Returns (rotate x c claims ip agent) s r w') stays e6),
      )
