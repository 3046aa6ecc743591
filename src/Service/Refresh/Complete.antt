-- ===== src/Service/Refresh/Complete.antt =====
-- When a refresh succeeds, and what a logout does.
use rustpress_plugin_authpro.Base.{
  ℕ, suc, ◌≡◌, refl, not, ◌&&◌, ◌==◌, is_some, any, any-update_false, arith, [], ◌∷◌, ◌++◌, String,
  str_append, true, false, Option, none, some, find_by, update_by,
}
use rustpress_plugin_authpro.Text.Split.{rsplit_dot}
use rustpress_plugin_authpro.Error.{ok}
use rustpress_plugin_authpro.Models.{User, RefreshToken, can_login, is_valid}
use rustpress_plugin_authpro.Models.Claims.{RefreshTokenClaims}
use rustpress_plugin_authpro.Models.Responses.{TokenResponse}
use rustpress_plugin_authpro.Config.{AuthConfig}
use rustpress_plugin_authpro.Externals.{Externals}
use rustpress_plugin_authpro.Db.Users.{user_id, select_user}
use rustpress_plugin_authpro.Db.RefreshTokens.{
  token_id, revoked_now, select_refresh_token, revoke_token,
}
use rustpress_plugin_authpro.Db.Changes.{SessionEnded, SessionEnded-made}
use rustpress_plugin_authpro.Exec.{World, tick, ◌>>=◌}
use rustpress_plugin_authpro.Service.Token.{hash_token, decode_refresh_token}
use rustpress_plugin_authpro.Service.Token.Issued.{refresh_validation, refresh_row}
use rustpress_plugin_authpro.Service.Token.Issues.{
  AccessReady, generate_access_token-issues, RefreshReady, refresh_string, with_refresh_row,
  generate_refresh_token-issues,
}
use rustpress_plugin_authpro.Service.Account.{find_user}
use rustpress_plugin_authpro.Service.Refresh.{logout, check_stored, rotate, refresh_tokens}
use rustpress_plugin_authpro.Service.Refresh.Rotation.{stored_token}

module _ (x : Externals) (c : AuthConfig) where
  -- `UPDATE refresh_tokens SET revoked_at = NOW() WHERE id = $1`, on the world.
  abbrev pub with_revoked : ℕ → World → World
  with_revoked tid w = record {
    db = record w.db {
      refresh_tokens = update_by token_id tid (revoked_now (x.db_now w.step)) w.db.refresh_tokens;
    };
    step = suc w.step;
  }

  logout_run :
      (token token_string jwt : String) (claims : RefreshTokenClaims) (w : World)
      → ((n : ℕ) → x.db_fault n ≡ none)
      → rsplit_dot token ≡ some (token_string, jwt)
      → x.decode_refresh c.jwt_secret (refresh_validation x c false) (x.utc_now w.step) jwt
        ≡ some claims
      → logout x c token w ≡ (ok tt, with_revoked claims.tid (tick w))
  unfolding logout decode_refresh_token revoke_token ◌>>=◌
  logout_run token token_string jwt claims w healthy split decoded = simp (healthy, split, decoded)

  -- Logout revokes the row that the payload of the JWT names, and no other, for any text before the
  -- dot that the decoder reads with the check of the signature switched off, and any text after the
  -- dot: neither a signature nor the secret part of the token is asked for. No other table is written.
  pub logout_revokes :
      (token token_string jwt : String) (claims : RefreshTokenClaims) (w : World)
      → ((n : ℕ) → x.db_fault n ≡ none)
      → rsplit_dot token ≡ some (token_string, jwt)
      → x.decode_refresh c.jwt_secret (refresh_validation x c false) (x.utc_now w.step) jwt
        ≡ some claims
      → (w' : World) × (logout x c token w ≡ (ok tt, w'))
        × SessionEnded claims.tid (x.db_now (suc w.step)) w.db w'.db
        × (w'.db ≡ record w.db { refresh_tokens = w'.db.refresh_tokens })
  logout_revokes token token_string jwt claims w healthy split decoded = (
    _,
    logout_run token token_string jwt claims w healthy split decoded,
    SessionEnded-made claims.tid _ w.db _ refl,
    refl,
  )

  module _ (token : String) (ip agent : Option String) (w : World) (u : User)
      (access : String) where
    -- The world before the new tokens are made: a decode, two lookups and two looks at the clock.
    abbrev pub checked : World
    checked = tick (tick (tick (tick (tick w))))

    -- The token is signed and stored, its user may log in, and new tokens can be made and stored.
    pub record RotationReady : Type 0 where
      pub token_string : String
      pub jwt : String
      pub claims : RefreshTokenClaims
      pub stored : RefreshToken
      pub healthy : (n : ℕ) → x.db_fault n ≡ none
      pub split : rsplit_dot token ≡ some (token_string, jwt)
      pub decoded :
          x.decode_refresh c.jwt_secret (refresh_validation x c true) (x.utc_now w.step) jwt
          ≡ some claims
      pub found :
          stored_token claims.tid (hash_token x c token_string) w.db.refresh_tokens ≡ some stored
      pub valid : is_valid stored (x.utc_now (suc (suc w.step))) ≡ true
      pub by_id : find_by user_id claims.sub w.db.users ≡ some u
      pub allowed : can_login u (x.utc_now (suc (suc (suc (suc w.step))))) ≡ true
      pub access_ready : AccessReady x c u checked access
      pub refresh_ready : RefreshReady x c u.id ip (tick (tick checked))

    abbrev pub rotation_response : RotationReady → TokenResponse
    rotation_response h = record {
      access_token = access;
      refresh_token =
          str_append h.refresh_ready.jwt
            (str_append "." (refresh_string x c (tick (tick checked))));
      token_type = "Bearer";
      expires_in = c.access_token_expiration;
    }

    -- The whole world after a refresh.
    pub refresh_succeeds :
        (h : RotationReady)
        → refresh_tokens x c token ip agent w ≡ (
          ok (rotation_response h),
          with_revoked h.claims.tid
              (with_refresh_row x c u.id h.refresh_ready.exp ip agent (tick (tick checked))),
        )
    unfolding refresh_tokens decode_refresh_token select_refresh_token check_stored rotate find_user
        select_user revoke_token ◌>>=◌
    refresh_succeeds h = simp (
      h.healthy,
      h.split,
      h.decoded,
      h.found,
      h.valid,
      h.by_id,
      h.allowed,
      generate_access_token-issues x c u checked access h.access_ready,
      generate_refresh_token-issues x c u.id ip agent (tick (tick checked)) h.refresh_ready,
    )

    -- A row for the new token is added: the user's, live, with the hash of the secret part.
    pub record NewSession (h : RotationReady) (r : TokenResponse) (t : RefreshToken) : Type 0 where
      pub owner : t.user_id ≡ u.id
      pub live : t.revoked_at ≡ none
      pub expires : t.expires_at ≡ h.refresh_ready.exp
      pub secret : String
      pub handed_out : r.refresh_token ≡ str_append h.refresh_ready.jwt (str_append "." secret)
      pub hashed : t.token_hash ≡ hash_token x c secret

    -- A refresh with a signed token whose row is valid, of a user who may log in, succeeds where new
    -- tokens can be made and stored. It adds one live row, of the same user, whose hash is that of the
    -- secret that is handed out; no live row is left under the old token's identifier; every other
    -- refresh token is as it was, and no other table is written.
    pub refresh_rotates :
        (h : RotationReady)
        → (r : TokenResponse) × (w' : World) × (t : RefreshToken) × (refresh_tokens x c token ip
              agent w
            ≡ (ok r, w'))
          × (r.access_token ≡ access)
          × NewSession h r t
          × SessionEnded h.claims.tid
              (x.db_now (suc (suc (suc (suc (suc (suc checked.step)))))))
              (record w.db { refresh_tokens = w.db.refresh_tokens ++ t ∷ [] })
              w'.db
          × (any (λ s. s.id == h.claims.tid && not (is_some s.revoked_at)) w'.db.refresh_tokens
              ≡ false)
          × (w'.db ≡ record w.db { refresh_tokens = w'.db.refresh_tokens })
    refresh_rotates h = (
      _,
      _,
      refresh_row x c u.id h.refresh_ready.exp ip agent (tick (tick checked)).step,
      refresh_succeeds h,
      refl,
      record {
        owner = refl;
        live = refl;
        expires = refl;
        secret = refresh_string x c (tick (tick checked));
        handed_out = refl;
        hashed = refl;
      },
      SessionEnded-made h.claims.tid _ _ _ refl,
      any-update_false (λ s. s.id == h.claims.tid && not (is_some s.revoked_at))
          (λ s. s.id == h.claims.tid) (revoked_now _) (λ s. ground arith)
          (w.db.refresh_tokens
            ++ refresh_row x c u.id h.refresh_ready.exp ip agent (tick (tick checked)).step ∷ []),
      refl,
    )
