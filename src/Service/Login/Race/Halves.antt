-- ===== src/Service/Login/Race/Halves.antt =====
-- The two halves of a login: an admission that passes, and the check of a wrong and of the right
-- password.
use rustpress_plugin_authpro.Base.{
  suc, ◌≡◌, String, true, false, not, ◌&&◌, Option, none, some, find_by, is_some,
}
use rustpress_plugin_authpro.Base.Int.{suc_ℤ, leb_ℤ, i32_max}
use rustpress_plugin_authpro.Error.{ok, err, invalid_credentials}
use rustpress_plugin_authpro.Models.{User, is_active, is_locked, is_email_verified}
use rustpress_plugin_authpro.Models.Requests.{LoginRequest}
use rustpress_plugin_authpro.Config.{AuthConfig}
use rustpress_plugin_authpro.Externals.{Externals}
use rustpress_plugin_authpro.Db.Users.{user_id, update_user, select_user_by_email, count_failure}
use rustpress_plugin_authpro.Exec.{World, tick, ◌>>=◌}
use rustpress_plugin_authpro.Service.Password.{verify_password}
use rustpress_plugin_authpro.Service.Account.{increment_failed_attempts}
use rustpress_plugin_authpro.Service.Login.{check_password, open_session}
use rustpress_plugin_authpro.Service.Login.Lockout.{with_email, record_failure_lem}
use rustpress_plugin_authpro.Service.Login.Race.{admit, attend}

module _ (x : Externals) (c : AuthConfig) (ip agent : Option String) where
  pub attend-wrong :
      (req : LoginRequest) (u v : User) (w : World)
      → x.db_fault w.step ≡ none
      → find_by user_id u.id w.db.users ≡ some v
      → verify_password x c req.password u.password_hash ≡ ok false
      → leb_ℤ (suc_ℤ v.failed_login_attempts) i32_max ≡ true
      → is_some (x.db_add_seconds (x.db_now w.step) c.lockout_duration) ≡ true
      → attend x c ip agent req u w ≡ (
        err invalid_credentials,
        record {
          db =
              update_user u.id
                (count_failure c.max_login_attempts
                  (x.db_add_seconds (x.db_now w.step) c.lockout_duration)
                  (x.db_now w.step))
                w.db;
          step = suc w.step;
        },
      )
  unfolding attend check_password increment_failed_attempts ◌>>=◌
  attend-wrong req u v w healthy found wrong countable lockable = simp (
    healthy,
    wrong,
    record_failure_lem w.db v u.id c.max_login_attempts
        (λ now. x.db_add_seconds now c.lockout_duration) (x.db_now w.step) found countable lockable,
  )

  pub attend-right :
      (req : LoginRequest) (u : User) (w : World)
      → verify_password x c req.password u.password_hash ≡ ok true
      → (c.require_email_verification && not (is_email_verified u)) ≡ false
      → attend x c ip agent req u w ≡ open_session x c u ip agent w
  unfolding attend check_password ◌>>=◌
  attend-right req u w right confirmed = simp (right, confirmed)

  pub admit-passes :
      (req : LoginRequest) (u : User) (w : World)
      → x.db_fault w.step ≡ none
      → with_email req.email w.db ≡ some u
      → u.locked_until ≡ none
      → is_active u.status ≡ true
      → admit x c req w ≡ (ok u, tick (tick w))
  unfolding admit select_user_by_email is_locked ◌>>=◌
  admit-passes req u w healthy found no_lock live = simp (healthy, found, no_lock, live)
