-- ===== src/Service/Login/Lockout.antt =====
-- Account lockout: what failed logins do to the row of a user, one after another.
use rustpress_plugin_authpro.Base.{
  ℕ, suc, ◌+◌, ◌≤◌, ◌≡◌, refl, String, str_eq, true, false, Option, none, some, arith, ◌==◌,
  find_where, find_by, find_where-update, is_some,
}
use rustpress_plugin_authpro.Base.Int.{ℤ, pos, suc_ℤ, leb_ℤ, i32_max}
use rustpress_plugin_authpro.Error.{ok, err, invalid_credentials, account_locked}
use rustpress_plugin_authpro.Models.{Instant, User, is_active, is_locked}
use rustpress_plugin_authpro.Models.Requests.{LoginRequest}
use rustpress_plugin_authpro.Config.{AuthConfig}
use rustpress_plugin_authpro.Externals.{Externals}
use rustpress_plugin_authpro.Db.{Db, done}
use rustpress_plugin_authpro.Db.Users.{
  user_id, update_user, select_user_by_email, reaches_limit, count_failure, record_failure,
}
use rustpress_plugin_authpro.Exec.{World, ◌>>=◌}
use rustpress_plugin_authpro.Service.Password.{verify_password}
use rustpress_plugin_authpro.Service.Account.{increment_failed_attempts}
use rustpress_plugin_authpro.Service.Login.{check_password, login_as, login}

-- SELECT * FROM users WHERE email = $1, as a search.
abbrev pub with_email : String → Db → Option User
with_email email d = find_where (λ u. str_eq u.email email) d.users

-- The statement of `increment_failed_attempts`, where its columns hold the new values.
pub record_failure_lem :
    (d : Db) (u : User) (id : ℕ) (max : ℤ) (lock_end : Instant → Option Instant) (now : Instant)
    → find_by user_id id d.users ≡ some u
    → leb_ℤ (suc_ℤ u.failed_login_attempts) i32_max ≡ true
    → is_some (lock_end now) ≡ true
    → record_failure id max lock_end now d
      ≡ done 1 (update_user id (count_failure max (lock_end now) now) d)
unfolding record_failure
record_failure_lem d u id max lock_end now found countable lockable = ground arith

module _ (x : Externals) (c : AuthConfig) (req : LoginRequest) (ip agent : Option String) where
  -- While the lock runs, a login is refused whatever the password, and nothing is written.
  pub login-locked :
      (w : World) (u : User)
      → x.db_fault w.step ≡ none
      → with_email req.email w.db ≡ some u
      → is_locked u (x.utc_now (suc w.step)) ≡ true
      → login x c req ip agent w ≡ (err account_locked, record w { step = suc (suc w.step) })
  unfolding login login_as ◌>>=◌ select_user_by_email
  login-locked w u healthy found locked = simp (healthy, found, locked)

  -- What a login with a wrong password does to the row of its user.
  abbrev pub counted : World → User → User
  counted w =
      count_failure c.max_login_attempts
        (x.db_add_seconds (x.db_now (suc (suc w.step))) c.lockout_duration)
        (x.db_now (suc (suc w.step)))

  -- The user may log in, the password is wrong, and the count and the end of a lock fit the columns.
  pub record WrongPassword (w : World) (u : User) : Type 0 where
    pub healthy : (n : ℕ) → x.db_fault n ≡ none
    pub by_email : with_email req.email w.db ≡ some u
    pub by_id : find_by user_id u.id w.db.users ≡ some u
    pub unlocked : is_locked u (x.utc_now (suc w.step)) ≡ false
    pub is_live : is_active u.status ≡ true
    pub wrong : verify_password x c req.password u.password_hash ≡ ok false
    pub countable : leb_ℤ (suc_ℤ u.failed_login_attempts) i32_max ≡ true
    pub lockable : (now : Instant) → is_some (x.db_add_seconds now c.lockout_duration) ≡ true

  -- A wrong password is answered by InvalidCredentials, and one failure is counted on the user's
  -- row; no other table is written.
  pub login-wrong :
      (w : World) (u : User)
      → WrongPassword w u
      → login x c req ip agent w ≡ (
        err invalid_credentials,
        record { db = update_user u.id (counted w) w.db; step = suc (suc (suc w.step)) },
      )
  unfolding login login_as check_password increment_failed_attempts ◌>>=◌ select_user_by_email
  login-wrong w u h = simp (
    h.healthy,
    h.by_email,
    h.unlocked,
    h.is_live,
    h.wrong,
    record_failure_lem w.db u u.id c.max_login_attempts
        (λ now. x.db_add_seconds now c.lockout_duration) (x.db_now (suc (suc w.step))) h.by_id
        h.countable (h.lockable (x.db_now (suc (suc w.step)))),
  )

  -- The count of failures outlives the lock: on an account whose count has reached the limit, one
  -- wrong password after the lock has run out locks it again at once.
  pub relock :
      (w : World) (u : User) (a m : ℕ)
      → WrongPassword w u
      → u.failed_login_attempts ≡ pos a
      → c.max_login_attempts ≡ pos m
      → m ≤ a
      → (v : User) × (with_email req.email (login x c req ip agent w).1.db ≡ some v)
        × (v.locked_until ≡ x.db_add_seconds (x.db_now (suc (suc w.step))) c.lockout_duration)
        × (v.failed_login_attempts ≡ pos (a + 1))
  unfolding count_failure reaches_limit
  relock w u a m h so_far limit reached = (
    counted w u,
    rw (login-wrong w u h) (
        ground (
          arith,
          h.by_email,
          find_where-update (λ v. str_eq v.email req.email) (λ v. v.id == u.id) (counted w)
              (λ v. refl) w.db.users,
        )),
    rw (so_far, limit) (ground arith),
    rw so_far,
  )
