-- ===== src/Service/Login/Refinement.antt =====
-- `login` runs the lockout machine.
use rustpress_plugin_authpro.Base.{
  suc, sym, find_where, find_where-update, str_eq, ◌==◌, Bool-cases, inl, inr, update_by, ◌≡◌, refl,
  ap, ◌∙◌, String, Bool, true, false, not, ◌&&◌, ◌||◌, Option, some, arith, find_by, find-update_by,
  ==_refl,
}
use rustpress_plugin_authpro.Base.Int.{ℤ, suc_ℤ, leb_ℤ, i32_max}
use rustpress_plugin_authpro.Db.{Db}
use rustpress_plugin_authpro.Error.{Outcome, ok, err, panic}
use rustpress_plugin_authpro.Models.{Instant, User, is_active, is_locked, is_email_verified}
use rustpress_plugin_authpro.Models.Requests.{LoginRequest}
use rustpress_plugin_authpro.Models.Responses.{AuthResponse}
use rustpress_plugin_authpro.Config.{AuthConfig}
use rustpress_plugin_authpro.Externals.{Externals}
use rustpress_plugin_authpro.Db.{done, fail, fits?}
use rustpress_plugin_authpro.Db.Users.{
  user_id, logged_in, count_failure, reaches_limit, record_failure, update_user,
}
use rustpress_plugin_authpro.Exec.{World, tick}
use rustpress_plugin_authpro.Service.Password.{verify_password}
use rustpress_plugin_authpro.Service.Login.{login}
use rustpress_plugin_authpro.Service.Login.Lockout.{with_email, counted, login-locked}
use rustpress_plugin_authpro.Service.Login.Machine.{
  account, Attempt, turned_away, wrong_password, let_in, judge, step, is_shut, is_writable,
}
use rustpress_plugin_authpro.Service.Login.SamePerson.{
  SamePerson, SamePerson-refl, logged_in-SamePerson, counted-SamePerson,
}
use rustpress_plugin_authpro.Service.Login.Branches.{
  LoginAnswered, inactive-login, unchecked-login, panicked-login, unconfirmed-login, admitted-login,
  open_session-users, unaddressed-login, failure_recorded, counted-login, uncounted-login,
}

record_failure-refuses :
    (d : Db) (u : User) (max : ℤ) (end : Instant → Option Instant) (now : Instant)
    → find_by user_id u.id d.users ≡ some u
    → is_writable max (end now) (account u) ≡ false
    → (m : String) × (record_failure u.id max end now d ≡ fail m)
unfolding record_failure reaches_limit
record_failure-refuses d u max end now found refused =
    elim (Bool-cases (leb_ℤ (suc_ℤ u.failed_login_attempts) i32_max)) [
      | inl countable ↦ ("timestamp out of range", ground arith)
      | inr overflows ↦ ("integer out of range", ground arith)
    ]

module _ (x : Externals) (c : AuthConfig) (req : LoginRequest) (ip agent : Option String)
    (w : World) (u : User) where
  -- What the machine is told of this login.
  abbrev pub attempt : Attempt
  attempt =
      judge (is_shut (account u) (x.utc_now (suc w.step))) (is_active u.status)
        (verify_password x c req.password u.password_hash)
        ((not c.require_email_verification || is_email_verified u) && fits? 45 ip)

  abbrev pub lock_end : Option Instant
  lock_end = x.db_add_seconds (x.db_now (suc (suc w.step))) c.lockout_duration

  abbrev after : World
  after = (login x c req ip agent w).1

  -- The row after the login, under the same identifier and email, is what the machine makes of the
  -- row before.
  pub record Stepped (a : Attempt) : Type 0 where
    pub row : User
    pub by_id : find_by user_id u.id after.db.users ≡ some row
    pub by_email : with_email req.email after.db ≡ some row
    pub person : SamePerson u row
    pub stepped : account row ≡ step c.max_login_attempts lock_end a (account u)

  module _ (h : LoginAnswered x c req ip agent w u) where
    -- Nothing was written.
    unchanged :
        (a : Attempt)
        → step c.max_login_attempts lock_end a (account u) ≡ account u
        → (r : Outcome AuthResponse) (w' : World) → w'.db ≡ w.db
        → login x c req ip agent w ≡ (r, w')
        → Stepped a
    unchanged a idle r w' same e =
        let db_same : after.db ≡ w.db = ap (λ r. r.1.db) e ∙ same in
        record {
          row = u;
          by_id = ap (λ d. find_by user_id u.id d.users) db_same ∙ h.by_id;
          by_email = ap (with_email req.email) db_same ∙ h.by_email;
          person = SamePerson-refl u;
          stepped = sym idle;
        }

    -- The user's row was updated.
    changed :
        (a : Attempt) (f : User → User)
        → ((v : User) → SamePerson v (f v))
        → account (f u) ≡ step c.max_login_attempts lock_end a (account u)
        → after.db.users ≡ update_by user_id u.id f w.db.users
        → Stepped a
    changed a f same stepped e = record {
      row = f u;
      by_id =
          ap (find_by user_id u.id) e
          ∙ rw (find-update_by user_id u.id u.id f (λ v. (same v).id) w.db.users)
              (ground (arith, h.by_id, ==_refl u.id));
      by_email =
          ap (find_where (λ v. str_eq v.email req.email)) e
          ∙ rw
              (find_where-update (λ v. str_eq v.email req.email) (λ v. v.id == u.id) f
                (λ v. rw ((same v).email) refl) w.db.users)
              (ground (arith, h.by_email, ==_refl u.id));
      person = same u;
      stepped = stepped;
    }

    failed :
        is_locked u (x.utc_now (suc w.step)) ≡ false
        → is_active u.status ≡ true
        → verify_password x c req.password u.password_hash ≡ ok false
        → Stepped wrong_password
    unfolding count_failure reaches_limit record_failure
    failed open_ live checked =
        elim (Bool-cases (is_writable c.max_login_attempts lock_end (account u))) [
          | inl writable ↦
              let answered : failure_recorded x c req ip agent w u
                  ≡ done 1 (update_user u.id (counted x c req ip agent w) w.db) =
                ground (arith, h.by_id) in
              changed wrong_password (counted x c req ip agent w)
                (λ v. counted-SamePerson x c req ip agent w v) (rw writable refl)
                (ap (λ r. r.1.db.users)
                  (counted-login x c req ip agent w u h 1 _ open_ live checked answered))
          | inr refused ↦
              let (m, answered) =
                record_failure-refuses w.db u c.max_login_attempts
                  (λ now. x.db_add_seconds now c.lockout_duration) (x.db_now (suc (suc w.step)))
                  h.by_id refused in
              unchanged wrong_password (rw refused refl) _ _ refl
                (uncounted-login x c req ip agent w u h m open_ live checked answered)
        ]

    entered :
        is_locked u (x.utc_now (suc w.step)) ≡ false
        → is_active u.status ≡ true
        → verify_password x c req.password u.password_hash ≡ ok true
        → (c.require_email_verification && not (is_email_verified u)) ≡ false
        → fits? 45 ip ≡ true
        → Stepped let_in
    entered open_ live checked confirmed short =
        changed let_in (logged_in ip (x.db_now (suc (suc w.step))))
          (logged_in-SamePerson ip (x.db_now (suc (suc w.step)))) refl
          (ap (λ r. r.1.db.users)
              (admitted-login x c req ip agent w u h open_ live checked confirmed)
            ∙ open_session-users x c u ip agent (tick (tick w)) (h.healthy (suc (suc w.step)))
                short)

    decided :
        (shut live : Bool) (checked : Outcome Bool) (confirmed short : Bool)
        → is_locked u (x.utc_now (suc w.step)) ≡ shut
        → is_active u.status ≡ live
        → verify_password x c req.password u.password_hash ≡ checked
        → (c.require_email_verification && not (is_email_verified u)) ≡ not confirmed
        → fits? 45 ip ≡ short
        → Stepped (judge shut live checked (confirmed && short))
    decided true live checked confirmed short e l v k f =
        unchanged turned_away refl _ _ refl
          (login-locked x c req ip agent w u (h.healthy w.step) h.by_email e)
    decided false false checked confirmed short e l v k f =
        unchanged turned_away refl _ _ refl (inactive-login x c req ip agent w u h e l)
    decided false true (ok true) true true e l v k f = entered e l v k f
    decided false true (ok true) true false e l v k f =
        unchanged turned_away refl _ _ refl (unaddressed-login x c req ip agent w u h e l v k f)
    decided false true (ok true) false short e l v k f =
        unchanged turned_away refl _ _ refl (unconfirmed-login x c req ip agent w u h e l v k)
    decided false true (ok false) confirmed short e l v k f = failed e l v
    decided false true (err error) confirmed short e l v k f =
        unchanged turned_away refl _ _ refl (unchecked-login x c req ip agent w u h error e l v)
    decided false true (panic m) confirmed short e l v k f =
        unchanged turned_away refl _ _ refl (panicked-login x c req ip agent w u h m e l v)

  is_locked-shut : (now : Instant) → is_locked u now ≡ is_shut (account u) now
  unfolding is_locked
  is_locked-shut now = ground arith

  -- A login runs the lockout machine, whatever it answers, overflows and tokens that could not be
  -- made included: the user's row after it is the machine's account after one step, from the account
  -- of the row before, by what the clock, the status, the password, the email and the client's
  -- address make of it. The user's email, password and status stay.
  pub login-step : LoginAnswered x c req ip agent w u → Stepped attempt
  login-step h =
      decided h _ _ _ _ _ (is_locked-shut (x.utc_now (suc w.step))) refl refl (ground arith) refl
