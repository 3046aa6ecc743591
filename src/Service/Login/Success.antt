-- ===== src/Service/Login/Success.antt =====
-- A login that succeeds: what was checked, and what it leaves behind.
use rustpress_plugin_authpro.Base.{
  suc, ◌≡◌, refl, ap, subst, not-eq-false, ◌∙◌, String, Bool, true, false, not, ◌&&◌, Option, some,
  update_by,
}
use rustpress_plugin_authpro.Error.{ok, err, invalid_credentials}
use rustpress_plugin_authpro.Models.{User, is_active, is_locked, is_email_verified}
use rustpress_plugin_authpro.Models.Requests.{LoginRequest}
use rustpress_plugin_authpro.Models.Responses.{AuthResponse, from_user}
use rustpress_plugin_authpro.Config.{AuthConfig}
use rustpress_plugin_authpro.Externals.{Externals}
use rustpress_plugin_authpro.Db.Users.{user_id, logged_in, select_user_by_email}
use rustpress_plugin_authpro.Db.Effects.{record_success-done}
use rustpress_plugin_authpro.Exec.{World, tick, lift}
use rustpress_plugin_authpro.Exec.Inversion.{
  Returns, Returns-bind, Returns-lift, Returns-pure, bind-lift, bind-draw, bind-run_sql,
  bind-fail_if, bind-ok_or, bind-select,
}
use rustpress_plugin_authpro.Service.Password.{verify_password}
use rustpress_plugin_authpro.Service.Token.{generate_access_token, generate_refresh_token}
use rustpress_plugin_authpro.Service.Token.Issued.{
  AccessIssued, generate_access_token-Returns, RefreshIssued, generate_refresh_token-Returns,
}
use rustpress_plugin_authpro.Service.Account.{increment_failed_attempts, record_successful_login}
use rustpress_plugin_authpro.Service.Login.{check_password, open_session, login_as, login}
use rustpress_plugin_authpro.Service.Login.Lockout.{with_email}

module _ (x : Externals) (c : AuthConfig) where
  pub record SessionOpened (u : User) (ip agent : Option String) (w : World) (r : AuthResponse)
      (w' : World) : Type 0 where
    pub before_access : World
    pub before_refresh : World
    pub cleared :
        before_access.db.users ≡ update_by user_id u.id (logged_in ip (x.db_now w.step)) w.db.users
    pub access : AccessIssued x c u before_access r.access_token before_refresh
    pub refresh : RefreshIssued x c u.id ip agent before_refresh r.refresh_token w'
    pub users : w'.db.users ≡ before_access.db.users
    pub answered : r.user ≡ from_user u

  open_session-Returns :
      (u : User) (ip agent : Option String) (w w' : World) (r : AuthResponse)
      → Returns (open_session x c u ip agent) w r w'
      → SessionOpened u ip agent w r w'
  unfolding open_session record_successful_login
  open_session-Returns u ip agent w w' r e =
      let (_, d, counted, e1) = bind-run_sql w w' r x _ _ e in
      let (access, w2, made, e2) = Returns-bind (generate_access_token x c u) _ _ w' r e1 in
      let (token, w3, stored, e3) =
        Returns-bind (generate_refresh_token x c u.id ip agent) _ w2 w' r e2 in
      let (given, last) = Returns-pure _ w3 w' r e3 in
      let issued = generate_access_token-Returns x c u _ w2 access made in
      let kept = generate_refresh_token-Returns x c u.id ip agent w2 w3 token stored in
      record {
        before_access = record { db = d; step = suc w.step };
        before_refresh = w2;
        cleared = ap (λ d. d.users) (record_success-done _ w.db d u.id ip tt counted);
        access = rw given issued;
        refresh = rw (given, last) kept;
        users =
            ap (λ v. v.db.users) last
            ∙ ap (λ d. d.users) kept.stored
            ∙ ap (λ d. d.users) issued.stays;
        answered = ap (λ r. r.user) given;
      }

  check_password-Returns :
      (u : User) (b : Bool) (w w' : World) (a : Unit {0})
      → Returns (check_password x c u b) w a w'
      → (b ≡ true) × (w' ≡ w)
  unfolding check_password
  check_password-Returns u true w w' a e = (refl, (Returns-pure tt w w' a e).1)
  check_password-Returns u false w w' a e =
      let (_, v, _, fails) =
        Returns-bind (increment_failed_attempts x c u.id) (λ _. lift (err invalid_credentials)) w w'
          a e in
      cc ((Returns-lift _ v w' a fails).0)

  -- The checks that a user has passed, and the writes of the login.
  pub record Admitted (req : LoginRequest) (ip agent : Option String) (user : User) (w : World)
      (r : AuthResponse) (w' : World) : Type 0 where
    pub unlocked : is_locked user (x.utc_now w.step) ≡ false
    pub is_live : is_active user.status ≡ true
    pub verified : verify_password x c req.password user.password_hash ≡ ok true
    pub confirmed : (c.require_email_verification && not (is_email_verified user)) ≡ false
    pub session : SessionOpened user ip agent (tick w) r w'

  login_as-Returns :
      (req : LoginRequest) (ip agent : Option String) (u : User) (w w' : World) (r : AuthResponse)
      → Returns (login_as x c req ip agent u) w r w'
      → Admitted req ip agent u w r w'
  unfolding login_as
  login_as-Returns req ip agent u w w' r e =
      let e1 = bind-draw w w' r x.utc_now _ e in
      let (unlocked, e2) = bind-fail_if (tick w) w' r _ _ _ e1 in
      let (live, e3) = bind-fail_if (tick w) w' r _ _ _ e2 in
      let (b, checked, e4) = bind-lift (tick w) w' r _ _ e3 in
      let (_, v, passed, e5) = Returns-bind (check_password x c u b) _ (tick w) w' r e4 in
      let (right, stays) = check_password-Returns u b (tick w) v tt passed in
      let (confirmed, e6) = bind-fail_if v w' r _ _ _ e5 in
      let session = open_session-Returns u ip agent v w' r e6 in
      record {
        unlocked = unlocked;
        is_live = not-eq-false _ live;
        verified = checked ∙ ap ok right;
        confirmed = confirmed;
        session = subst (λ v. SessionOpened u ip agent v r w') stays session;
      }

  -- A login succeeds only for a user with that email, who is not locked, is active, has that
  -- password and, where the configuration demands it, a verified email. It then clears the count
  -- of failures and the lock, and issues an access token and a stored refresh token to that user.
  pub login-Returns :
      (req : LoginRequest) (ip agent : Option String) (w w' : World) (r : AuthResponse)
      → Returns (login x c req ip agent) w r w'
      → (u : User) × (with_email req.email w.db ≡ some u) × Admitted req ip agent u (tick w) r w'
  unfolding login select_user_by_email
  login-Returns req ip agent w w' r e =
      let e1 = bind-select w w' r x (λ _ d. with_email req.email d) _ e in
      let (u, found, e2) = bind-ok_or (tick w) w' r _ _ _ e1 in
      (u, found, login_as-Returns req ip agent u (tick w) w' r e2)
