-- ===== src/Service/Login/Branches.antt =====
-- The answers of `login` on each of its branches but the locked one, which is in Lockout, and the
-- users after a session was opened.
use rustpress_plugin_authpro.Base.{
  ℕ, suc, any, ◌==◌, any-of_find_where, ◌≡◌, refl, ap, ◌∙◌, String, true, false, not, ◌&&◌, Option,
  none, some, arith, find_by, update_by,
}
use rustpress_plugin_authpro.Error.{
  AuthError, ok, err, panic, database, invalid_credentials, account_not_active, email_not_verified,
}
use rustpress_plugin_authpro.Models.{Uuid, Instant, User, is_active, is_locked, is_email_verified}
use rustpress_plugin_authpro.Models.Requests.{LoginRequest}
use rustpress_plugin_authpro.Models.Responses.{AuthResponse, from_user}
use rustpress_plugin_authpro.Config.{AuthConfig}
use rustpress_plugin_authpro.Externals.{Externals}
use rustpress_plugin_authpro.Db.{Db, Sql, done, fail, fits?}
use rustpress_plugin_authpro.Db.Users.{
  user_id, logged_in, update_user, select_user_by_email, record_success, record_failure,
}
use rustpress_plugin_authpro.Db.RefreshTokens.{insert_refresh_token}
use rustpress_plugin_authpro.Db.Effects.{insert_refresh_token-done}
use rustpress_plugin_authpro.Exec.{World, pure, tick, ◌>>=◌}
use rustpress_plugin_authpro.Exec.Stepping.{run_sql-bind}
use rustpress_plugin_authpro.Exec.Respects.{IsPreorder, Respects, Keeps, respects_rules}
use rustpress_plugin_authpro.Service.Password.{verify_password}
use rustpress_plugin_authpro.Service.Token.{expiry, generate_access_token, generate_refresh_token}
use rustpress_plugin_authpro.Service.Account.{record_successful_login, increment_failed_attempts}
use rustpress_plugin_authpro.Service.Login.{login, login_as, check_password, open_session}
use rustpress_plugin_authpro.Service.Login.Lockout.{with_email}

abbrev pub SameUsers : Db → Db → Type 0
SameUsers d d' = d'.users ≡ d.users

pub SameUsers-IsPreorder : IsPreorder SameUsers
SameUsers-IsPreorder = record { same = λ d. refl; next = λ a b c h k. k ∙ h }

pub insert_refresh_token-SameUsers :
    (id user : Uuid) (hash : String) (exp : Instant) (ip agent : Option String)
    → Keeps SameUsers (insert_refresh_token id user hash exp ip agent)
insert_refresh_token-SameUsers id user hash exp ip agent now d d' a e =
    ap (λ d. d.users) (insert_refresh_token-done now d d' id user hash exp ip agent a e).0

module _ (x : Externals) (c : AuthConfig) where
  pub access-SameUsers : (u : User) → Respects SameUsers (generate_access_token x c u)
  unfolding generate_access_token expiry
  access-SameUsers u = search (respects_rules, SameUsers-IsPreorder) depth 12

  pub refresh-SameUsers :
      (id : Uuid) (ip agent : Option String)
      → Respects SameUsers (generate_refresh_token x c id ip agent)
  unfolding generate_refresh_token expiry
  refresh-SameUsers id ip agent =
      search (respects_rules, SameUsers-IsPreorder, insert_refresh_token-SameUsers) depth 12

  pub record_success_lem :
      (d : Db) (id : Uuid) (ip : Option String) (now : Instant)
      → fits? 45 ip ≡ true
      → record_success id ip now d ≡ done tt (update_user id (logged_in ip now) d)
  unfolding record_success
  record_success_lem d id ip now short = rw short (ground arith)

  record_success-refused :
      (d : Db) (u : User) (ip : Option String) (now : Instant)
      → find_by user_id u.id d.users ≡ some u
      → fits? 45 ip ≡ false
      → record_success u.id ip now d ≡ fail "value too long"
  unfolding record_success
  record_success-refused d u ip now found long =
      let present : any (λ v. v.id == u.id) d.users ≡ true =
        any-of_find_where (λ v. v.id == u.id) d.users u found in
      rw (present, long)

  -- A session that is opened, or fails to be made, leaves the user's row as a login records it.
  pub open_session-users :
      (u : User) (ip agent : Option String) (w : World)
      → x.db_fault w.step ≡ none
      → fits? 45 ip ≡ true
      → (open_session x c u ip agent w).1.db.users
        ≡ update_by user_id u.id (logged_in ip (x.db_now w.step)) w.db.users
  unfolding open_session record_successful_login
  open_session-users u ip agent w healthy short =
      ap (λ r. r.1.db.users)
        (run_sql-bind x (record_success u.id ip) _ w tt _ healthy
          (record_success_lem w.db u.id ip (x.db_now w.step) short))
      ∙ tokens.at _
    where
      tokens : Respects {A = AuthResponse} SameUsers (
          generate_access_token x c u >>= λ access.
          generate_refresh_token x c u.id ip agent >>= λ refresh. pure (record {
            user = from_user u;
            access_token = access;
            refresh_token = refresh;
            token_type = "Bearer";
            expires_in = c.access_token_expiration;
          }))
      tokens =
          search (respects_rules, SameUsers-IsPreorder, access-SameUsers, refresh-SameUsers) depth
            12

  module _ (req : LoginRequest) (ip agent : Option String) (w : World) (u : User) where
    -- The database answers, and the email and the identifier find one row.
    pub record LoginAnswered : Type 0 where
      pub healthy : (n : ℕ) → x.db_fault n ≡ none
      pub by_email : with_email req.email w.db ≡ some u
      pub by_id : find_by user_id u.id w.db.users ≡ some u

    -- The UPDATE after a wrong password.
    abbrev pub failure_recorded : Sql ℕ
    failure_recorded =
        record_failure u.id c.max_login_attempts (λ now. x.db_add_seconds now c.lockout_duration)
          (x.db_now (suc (suc w.step))) w.db

    module _ (h : LoginAnswered) where
      pub inactive-login :
          is_locked u (x.utc_now (suc w.step)) ≡ false
          → is_active u.status ≡ false
          → login x c req ip agent w ≡ (err account_not_active, tick (tick w))
      unfolding login login_as select_user_by_email ◌>>=◌
      inactive-login open_ inactive = simp (h.healthy, h.by_email, open_, inactive)

      pub unchecked-login :
          (e : AuthError)
          → is_locked u (x.utc_now (suc w.step)) ≡ false
          → is_active u.status ≡ true
          → verify_password x c req.password u.password_hash ≡ err e
          → login x c req ip agent w ≡ (err e, tick (tick w))
      unfolding login login_as select_user_by_email ◌>>=◌
      unchecked-login e open_ live checked = simp (h.healthy, h.by_email, open_, live, checked)

      pub panicked-login :
          (m : String)
          → is_locked u (x.utc_now (suc w.step)) ≡ false
          → is_active u.status ≡ true
          → verify_password x c req.password u.password_hash ≡ panic m
          → login x c req ip agent w ≡ (panic m, tick (tick w))
      unfolding login login_as select_user_by_email ◌>>=◌
      panicked-login m open_ live checked = simp (h.healthy, h.by_email, open_, live, checked)

      pub unconfirmed-login :
          is_locked u (x.utc_now (suc w.step)) ≡ false
          → is_active u.status ≡ true
          → verify_password x c req.password u.password_hash ≡ ok true
          → (c.require_email_verification && not (is_email_verified u)) ≡ true
          → login x c req ip agent w ≡ (err email_not_verified, tick (tick w))
      unfolding login login_as check_password select_user_by_email ◌>>=◌
      unconfirmed-login open_ live checked demanded =
          simp (h.healthy, h.by_email, open_, live, checked, demanded)

      pub admitted-login :
          is_locked u (x.utc_now (suc w.step)) ≡ false
          → is_active u.status ≡ true
          → verify_password x c req.password u.password_hash ≡ ok true
          → (c.require_email_verification && not (is_email_verified u)) ≡ false
          → login x c req ip agent w ≡ open_session x c u ip agent (tick (tick w))
      unfolding login login_as check_password select_user_by_email ◌>>=◌
      admitted-login open_ live checked confirmed =
          simp (h.healthy, h.by_email, open_, live, checked, confirmed)

      pub unaddressed-login :
          is_locked u (x.utc_now (suc w.step)) ≡ false
          → is_active u.status ≡ true
          → verify_password x c req.password u.password_hash ≡ ok true
          → (c.require_email_verification && not (is_email_verified u)) ≡ false
          → fits? 45 ip ≡ false
          → login x c req ip agent w ≡ (err (database "value too long"), tick (tick (tick w)))
      unfolding login login_as check_password open_session record_successful_login
          select_user_by_email ◌>>=◌
      unaddressed-login open_ live checked confirmed long = simp (
        h.healthy,
        h.by_email,
        open_,
        live,
        checked,
        confirmed,
        record_success-refused w.db u ip (x.db_now (suc (suc w.step))) h.by_id long,
      )

      pub counted-login :
          (rows : ℕ) (d : Db)
          → is_locked u (x.utc_now (suc w.step)) ≡ false
          → is_active u.status ≡ true
          → verify_password x c req.password u.password_hash ≡ ok false
          → failure_recorded ≡ done rows d
          → login x c req ip agent w
            ≡ (err invalid_credentials, record { db = d; step = suc (suc (suc w.step)) })
      unfolding login login_as check_password increment_failed_attempts select_user_by_email ◌>>=◌
      counted-login rows d open_ live checked done_ =
          simp (h.healthy, h.by_email, open_, live, checked, done_)

      pub uncounted-login :
          (m : String)
          → is_locked u (x.utc_now (suc w.step)) ≡ false
          → is_active u.status ≡ true
          → verify_password x c req.password u.password_hash ≡ ok false
          → failure_recorded ≡ fail m
          → login x c req ip agent w ≡ (err (database m), tick (tick (tick w)))
      unfolding login login_as check_password increment_failed_attempts select_user_by_email ◌>>=◌
      uncounted-login m open_ live checked refused =
          simp (h.healthy, h.by_email, open_, live, checked, refused)
