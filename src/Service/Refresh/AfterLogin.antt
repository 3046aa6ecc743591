-- ===== src/Service/Refresh/AfterLogin.antt =====
-- A session from its login to its first refresh.
use rustpress_plugin_authpro.Base.{
  suc, ◌≡◌, refl, String, str_eq, eq_refl, true, false, ◌&&◌, Option, some, ◌==◌, ==_refl,
  find_where-none, find_where-last, find_by, find-update_by, ltb, arith,
}
use rustpress_plugin_authpro.Text.Tokens.{refresh_token_parts}
use rustpress_plugin_authpro.Error.{ok}
use rustpress_plugin_authpro.Models.{User, can_login, is_valid}
use rustpress_plugin_authpro.Models.Requests.{LoginRequest}
use rustpress_plugin_authpro.Models.Responses.{AuthResponse, TokenResponse}
use rustpress_plugin_authpro.Config.{AuthConfig}
use rustpress_plugin_authpro.Externals.{Externals}
use rustpress_plugin_authpro.Db.Users.{user_id, logged_in}
use rustpress_plugin_authpro.Exec.{World, tick}
use rustpress_plugin_authpro.Service.Token.{hash_token, refresh_claims}
use rustpress_plugin_authpro.Service.Token.Issued.{refresh_validation, refresh_row}
use rustpress_plugin_authpro.Service.Token.Issues.{
  AccessReady, RefreshReady, refresh_string, with_refresh_row,
}
use rustpress_plugin_authpro.Service.Login.{login}
use rustpress_plugin_authpro.Service.Login.Complete.{
  LoginReady, recorded, session_response, login_succeeds,
}
use rustpress_plugin_authpro.Service.Refresh.{refresh_tokens}
use rustpress_plugin_authpro.Service.Refresh.Complete.{
  checked, RotationReady, rotation_response, refresh_succeeds,
}
use rustpress_plugin_authpro.Service.Refresh.Rotation.{stored_token}

module _ (x : Externals) (c : AuthConfig) (req : LoginRequest) (ip agent : Option String)
    (w : World) (u : User) (access : String) (h : LoginReady x c req ip agent w u access) where
  -- The world when the tokens of the login are made, and after the login.
  abbrev issuing : World
  issuing = tick (tick (recorded x c req ip agent w u access))

  abbrev pub signed_in : World
  signed_in = with_refresh_row x c u.id h.refresh_ready.exp ip agent issuing

  abbrev pub signed_user : User
  signed_user = logged_in ip (x.db_now (suc (suc w.step))) u

  abbrev pub session_token : String
  session_token = (session_response x c req ip agent w u access h).refresh_token

  -- The identifier is the user's, jsonwebtoken decodes the JWT that it made at the login, the session
  -- has not expired, and new tokens can be made and stored.
  pub record Redeemable (ip' agent' : Option String) (access' : String) : Type 0 where
    pub by_id : find_by user_id u.id w.db.users ≡ some u
    pub decoded :
        x.decode_refresh c.jwt_secret
          (refresh_validation x c true)
          (x.utc_now signed_in.step)
          h.refresh_ready.jwt
        ≡ some (
            refresh_claims x c u.id
              (x.new_uuid issuing.step)
              (x.utc_now (suc issuing.step))
              h.refresh_ready.exp)
    pub in_time : ltb h.refresh_ready.exp (x.utc_now (suc (suc signed_in.step))) ≡ false
    pub access_ready :
        AccessReady x c signed_user
          (checked x c session_token ip' agent' signed_in signed_user access')
          access'
    pub refresh_ready :
        RefreshReady x c u.id ip'
          (tick (tick (checked x c session_token ip' agent' signed_in signed_user access')))

  module _ (ip' agent' : Option String) (access' : String) (k : Redeemable ip' agent' access') where
    row_found :
        stored_token
          (x.new_uuid issuing.step)
          (hash_token x c (refresh_string x c issuing))
          signed_in.db.refresh_tokens
        ≡ some (refresh_row x c u.id h.refresh_ready.exp ip agent issuing.step)
    row_found =
        find_where-last _ w.db.refresh_tokens _
          (find_where-none (λ t. t.id == x.new_uuid issuing.step)
            (λ t.
              t.id == x.new_uuid issuing.step
              && str_eq t.token_hash (hash_token x c (refresh_string x c issuing)))
            (λ t e. ground arith) w.db.refresh_tokens h.refresh_ready.new_id)
          (rw (
            ==_refl (x.new_uuid issuing.step),
            eq_refl (hash_token x c (refresh_string x c issuing)),
          ))

    ready : RotationReady x c session_token ip' agent' signed_in signed_user access'
    unfolding is_valid can_login
    ready = record {
      token_string = refresh_string x c issuing;
      jwt = h.refresh_ready.jwt;
      claims =
          refresh_claims x c u.id (x.new_uuid issuing.step) (x.utc_now (suc issuing.step))
            h.refresh_ready.exp;
      stored = refresh_row x c u.id h.refresh_ready.exp ip agent issuing.step;
      healthy = h.healthy;
      split = refresh_token_parts h.refresh_ready.jwt (x.random_bytes (suc (suc issuing.step)));
      decoded = k.decoded;
      found = row_found;
      valid = rw k.in_time;
      by_id =
          rw
            (find-update_by user_id u.id u.id (logged_in ip (x.db_now (suc (suc w.step))))
              (λ v. refl) w.db.users)
            (ground (arith, k.by_id, ==_refl u.id));
      allowed = rw h.is_live;
      access_ready = k.access_ready;
      refresh_ready = k.refresh_ready;
    }

    -- The refresh token that a login hands out is exchanged for new ones: a login whose tokens can be
    -- made and stored succeeds, and a refresh that comes next with its token, on the tables that the
    -- login left, does too, with an access token for the same user, provided that the token has not
    -- expired, jsonwebtoken decodes the JWT that it made, no statement fails, and the new tokens can
    -- be made and stored.
    pub login-refresh :
        (s : AuthResponse) × (v : World) × (r : TokenResponse) × (w' : World) × (login x c req ip
            agent w
          ≡ (ok s, v))
        × (refresh_tokens x c s.refresh_token ip' agent' v ≡ (ok r, w'))
        × (r.access_token ≡ access')
    login-refresh = (
      session_response x c req ip agent w u access h,
      signed_in,
      rotation_response x c session_token ip' agent' signed_in signed_user access' ready,
      _,
      login_succeeds x c req ip agent w u access h,
      refresh_succeeds x c session_token ip' agent' signed_in signed_user access' ready,
      refl,
    )
