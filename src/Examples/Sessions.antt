-- ===== src/Examples/Sessions.antt =====
-- Sessions: a refresh with the token "jwt.ab", a second use of it, and logins.
use rustpress_plugin_authpro.Base.{
  ◌≡◌, refl, false, not, ◌&&◌, none, some, [], ◌∷◌, any, ◌==◌, ◌++◌, is_some,
}
use rustpress_plugin_authpro.Error.{ok, err, token_revoked}
use rustpress_plugin_authpro.Text.{hex_u64, base64_url_encode}
use rustpress_plugin_authpro.Text.Split.{rsplit_dot}
use rustpress_plugin_authpro.Db.Changes.{SessionEnded, SessionsEnded}
use rustpress_plugin_authpro.Models.{RefreshToken, is_revoked, is_valid, can_login}
use rustpress_plugin_authpro.Models.Roles.{as_str}
use rustpress_plugin_authpro.Service.Account.{find_user}
use rustpress_plugin_authpro.Db.Users.{select_user}
use rustpress_plugin_authpro.Models.Responses.{TokenResponse}
use rustpress_plugin_authpro.Exec.{World, tick, ◌>>=◌}
use rustpress_plugin_authpro.Exec.Inversion.{Returns}
use rustpress_plugin_authpro.Db.RefreshTokens.{
  revoked_now, select_refresh_token, insert_refresh_token, revoke_token,
}
use rustpress_plugin_authpro.Service.Token.{
  hash_token, decode_refresh_token, generate_access_token, generate_refresh_token,
}
use rustpress_plugin_authpro.Service.Refresh.{refresh_tokens, check_stored, rotate}
use rustpress_plugin_authpro.Service.Refresh.Rotation.{refresh_tokens-Returns, Presented, Rotated}
use rustpress_plugin_authpro.Safety.RefreshOnce.{reuse_revokes_all}
use rustpress_plugin_authpro.Base.Int.{pos}
use rustpress_plugin_authpro.Service.Refresh.{logout}
use rustpress_plugin_authpro.Service.Refresh.Complete.{
  logout_revokes, RotationReady, NewSession, refresh_rotates,
}
use rustpress_plugin_authpro.Text.Tokens.{refresh_token_parts}
use rustpress_plugin_authpro.Base.{str_append}
use rustpress_plugin_authpro.Examples.{
  world_outside, settings, alice, alice_claims, alice_token, start,
}

abbrev refreshed : TokenResponse
refreshed = record {
  access_token = "access";
  refresh_token = "jwt2.09";
  token_type = "Bearer";
  expires_in = pos 3600;
}

abbrev after_refresh : World
after_refresh = (refresh_tokens world_outside settings "jwt.ab" none none start).1

refresh_run :
    Returns (refresh_tokens world_outside settings "jwt.ab" none none) start refreshed after_refresh
unfolding refresh_tokens decode_refresh_token select_refresh_token check_stored rotate rsplit_dot
    hash_token hex_u64 is_valid find_user select_user can_login generate_access_token as_str
    generate_refresh_token base64_url_encode insert_refresh_token revoke_token ◌>>=◌
refresh_run = refl

refresh_tokens-Returns_example :
    (p : Presented world_outside settings "jwt.ab" start) × Rotated world_outside settings p.claims
      none none
      (tick (tick (tick start)))
      refreshed
      after_refresh
refresh_tokens-Returns_example =
    refresh_tokens-Returns world_outside settings "jwt.ab" none none start after_refresh refreshed
      refresh_run

reuse_revokes_all_example :
    (w' : World) × (refresh_tokens world_outside settings "jwt.ab" none none after_refresh
      ≡ (err token_revoked, w'))
    × SessionsEnded 1 1015 after_refresh.db w'.db
    × (w'.db ≡ record after_refresh.db { refresh_tokens = w'.db.refresh_tokens })
unfolding refresh_tokens decode_refresh_token select_refresh_token check_stored rotate rsplit_dot
    hash_token hex_u64 is_valid is_revoked find_user select_user can_login generate_access_token
    as_str generate_refresh_token base64_url_encode insert_refresh_token revoke_token ◌>>=◌
reuse_revokes_all_example =
    reuse_revokes_all world_outside settings "jwt.ab" none none after_refresh "ab" "jwt"
      alice_claims (revoked_now 1011 alice_token) (λ n. refl) refl refl refl refl

logout_revokes_example :
    (w' : World) × (logout world_outside settings "jwt.forged" start ≡ (ok tt, w'))
    × SessionEnded 7 1001 start.db w'.db
    × (w'.db ≡ record start.db { refresh_tokens = w'.db.refresh_tokens })
unfolding rsplit_dot
logout_revokes_example =
    logout_revokes world_outside settings "jwt.forged" "forged" "jwt" alice_claims start (λ n. refl)
      refl refl

rotation_ready : RotationReady world_outside settings "jwt.ab" none none start alice "access"
unfolding rsplit_dot hash_token hex_u64 is_valid can_login as_str base64_url_encode
rotation_ready = record {
  token_string = "ab";
  jwt = "jwt";
  claims = alice_claims;
  stored = alice_token;
  healthy = λ n. refl;
  split = refl;
  decoded = refl;
  found = refl;
  valid = refl;
  by_id = refl;
  allowed = refl;
  access_ready = record { exp = 4605; expires = refl; encoded = refl };
  refresh_ready = record {
    exp = 605808;
    jwt = "jwt2";
    healthy = refl;
    expires = refl;
    encoded = refl;
    ip_fits = refl;
    new_id = refl;
    new_hash = refl;
    known = refl;
  };
}

refresh_rotates_example :
    (r : TokenResponse) × (w' : World) × (t : RefreshToken) × (refresh_tokens world_outside settings
        "jwt.ab" none none start
      ≡ (ok r, w'))
    × (r.access_token ≡ "access")
    × NewSession world_outside settings "jwt.ab" none none start alice "access" rotation_ready r t
    × SessionEnded 7 1011
        (record start.db { refresh_tokens = start.db.refresh_tokens ++ t ∷ [] })
        w'.db
    × (any (λ s. s.id == 7 && not (is_some s.revoked_at)) w'.db.refresh_tokens ≡ false)
    × (w'.db ≡ record start.db { refresh_tokens = w'.db.refresh_tokens })
unfolding rotation_ready
refresh_rotates_example =
    refresh_rotates world_outside settings "jwt.ab" none none start alice "access" rotation_ready

abbrev stored_session : World
stored_session = (generate_refresh_token world_outside settings 1 none none start).1

refresh_token_parts_example :
    rsplit_dot (str_append "a.b.c" (str_append "." (base64_url_encode (255 ∷ 10 ∷ []))))
    ≡ some (base64_url_encode (255 ∷ 10 ∷ []), "a.b.c")
refresh_token_parts_example = refresh_token_parts "a.b.c" (255 ∷ 10 ∷ [])
