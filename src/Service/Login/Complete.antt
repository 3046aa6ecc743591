-- ===== src/Service/Login/Complete.antt =====
-- When a login succeeds, and with what.
use rustpress_plugin_authpro.Base.{
  ℕ, suc, ◌≡◌, refl, [], ◌∷◌, ◌++◌, String, str_append, true, false, not, ◌&&◌, Option, none, some,
  arith,
}
use rustpress_plugin_authpro.Error.{ok}
use rustpress_plugin_authpro.Models.{RefreshToken, User, is_active, is_locked, is_email_verified}
use rustpress_plugin_authpro.Models.Requests.{LoginRequest}
use rustpress_plugin_authpro.Models.Responses.{AuthResponse, from_user}
use rustpress_plugin_authpro.Config.{AuthConfig}
use rustpress_plugin_authpro.Externals.{Externals}
use rustpress_plugin_authpro.Db.{done}
use rustpress_plugin_authpro.Db.Users.{logged_in, update_user, select_user_by_email, record_success}
use rustpress_plugin_authpro.Db.Changes.{LoginRecorded, LoginRecorded-made}
use rustpress_plugin_authpro.Exec.{World, tick, ◌>>=◌}
use rustpress_plugin_authpro.Service.Password.{verify_password}
use rustpress_plugin_authpro.Service.Token.{hash_token}
use rustpress_plugin_authpro.Service.Token.Issued.{refresh_row}
use rustpress_plugin_authpro.Service.Token.Issues.{
  AccessReady, generate_access_token-issues, RefreshReady, refresh_string, with_refresh_row,
  generate_refresh_token-issues,
}
use rustpress_plugin_authpro.Service.Account.{record_successful_login}
use rustpress_plugin_authpro.Service.Login.{login, login_as, check_password, open_session}
use rustpress_plugin_authpro.Service.Login.Lockout.{with_email}

module _ (x : Externals) (c : AuthConfig) (req : LoginRequest) (ip agent : Option String)
    (w : World) (u : User) (access : String) where
  -- The tables after the login was recorded on the user's row.
  abbrev pub recorded : World
  recorded = record {
    db = update_user u.id (logged_in ip (x.db_now (suc (suc w.step)))) w.db;
    step = suc (suc (suc w.step));
  }

  -- The user may log in with this password, and the tokens can be made and stored.
  pub record LoginReady : Type 0 where
    pub healthy : (n : ℕ) → x.db_fault n ≡ none
    pub by_email : with_email req.email w.db ≡ some u
    pub unlocked : is_locked u (x.utc_now (suc w.step)) ≡ false
    pub is_live : is_active u.status ≡ true
    pub right : verify_password x c req.password u.password_hash ≡ ok true
    pub confirmed : (c.require_email_verification && not (is_email_verified u)) ≡ false
    pub access_ready : AccessReady x c u recorded access
    pub refresh_ready : RefreshReady x c u.id ip (tick (tick recorded))

  abbrev pub session_response : LoginReady → AuthResponse
  session_response h = record {
    user = from_user u;
    access_token = access;
    refresh_token =
        str_append h.refresh_ready.jwt (str_append "." (refresh_string x c (tick (tick recorded))));
    token_type = "Bearer";
    expires_in = c.access_token_expiration;
  }

  record_success_lem :
      LoginReady → record_success u.id ip (x.db_now (suc (suc w.step))) w.db ≡ done tt recorded.db
  unfolding record_success
  record_success_lem h = rw h.refresh_ready.ip_fits (ground arith)

  -- The whole world after a login.
  pub login_succeeds :
      (h : LoginReady)
      → login x c req ip agent w ≡ (
        ok (session_response h),
        with_refresh_row x c u.id h.refresh_ready.exp ip agent (tick (tick recorded)),
      )
  unfolding login login_as check_password open_session select_user_by_email record_successful_login
      ◌>>=◌
  login_succeeds h = simp (
    h.healthy,
    h.by_email,
    h.unlocked,
    h.is_live,
    h.right,
    h.confirmed,
    record_success_lem h,
    generate_access_token-issues x c u recorded access h.access_ready,
    generate_refresh_token-issues x c u.id ip agent (tick (tick recorded)) h.refresh_ready,
  )

  -- A row for the refresh token is added: the user's, live, with the hash of the secret part.
  pub record SessionStored (h : LoginReady) (r : AuthResponse) (t : RefreshToken) : Type 0 where
    pub owner : t.user_id ≡ u.id
    pub live : t.revoked_at ≡ none
    pub expires : t.expires_at ≡ h.refresh_ready.exp
    pub secret : String
    pub handed_out : r.refresh_token ≡ str_append h.refresh_ready.jwt (str_append "." secret)
    pub hashed : t.token_hash ≡ hash_token x c secret

  -- A login with the right password of an active, unlocked user, verified where that is demanded,
  -- succeeds where the tokens can be made and stored. The user's row then has no failures and no
  -- lock, and the time and the address of the login; one live row is added for the refresh token,
  -- whose hash is that of the secret that is handed out; and every other row is as it was.
  pub login_opens :
      (h : LoginReady)
      → (r : AuthResponse) × (w' : World) × (t : RefreshToken) × (login x c req ip agent w
          ≡ (ok r, w'))
        × (r.access_token ≡ access)
        × (r.user ≡ from_user u)
        × SessionStored h r t
        × LoginRecorded u.id ip (x.db_now (suc (suc w.step))) w.db w'.db
        × (w'.db
            ≡ record w.db { users = w'.db.users; refresh_tokens = w.db.refresh_tokens ++ t ∷ [] })
  login_opens h = (
    session_response h,
    with_refresh_row x c u.id h.refresh_ready.exp ip agent (tick (tick recorded)),
    refresh_row x c u.id h.refresh_ready.exp ip agent (tick (tick recorded)).step,
    login_succeeds h,
    refl,
    refl,
    record {
      owner = refl;
      live = refl;
      expires = refl;
      secret = refresh_string x c (tick (tick recorded));
      handed_out = refl;
      hashed = refl;
    },
    LoginRecorded-made u.id ip _ w.db _ refl,
    refl,
  )
