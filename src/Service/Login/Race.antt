-- ===== src/Service/Login/Race.antt =====
-- Many logins at once to one account. `login` runs no transaction: other requests come between its
-- check of the lock and the UPDATE that counts a wrong password.
pub mod Halves
pub mod Counted
pub mod Opened
use rustpress_plugin_authpro.Base.{
  ℕ, zero, suc, ◌+◌, ◌-◌, ◌*◌, ◌^◌, ◌<◌, ◌≤◌, ◌≡◌, refl, sym, ap, ◌∙◌, String, str_eq, true, false,
  not, ◌&&◌, Option, none, some, List, [], ◌∷◌, length, arith, ◌==◌, ==_refl, find_by,
  find-update_by, is_some,
}
use rustpress_plugin_authpro.Base.Int.{pos, suc_ℤ, leb_ℤ, i32_max}
use rustpress_plugin_authpro.Error.{
  ok, err, ok_or, invalid_credentials, account_locked, account_not_active, email_not_verified,
}
use rustpress_plugin_authpro.Models.{Instant, User, is_active, is_locked, is_email_verified}
use rustpress_plugin_authpro.Models.Requests.{LoginRequest}
use rustpress_plugin_authpro.Models.Responses.{AuthResponse}
use rustpress_plugin_authpro.Config.{AuthConfig}
use rustpress_plugin_authpro.Externals.{Externals}
use rustpress_plugin_authpro.Db.{Db, fits?}
use rustpress_plugin_authpro.Db.Users.{
  user_id, logged_in, update_user, select_user_by_email, reaches_limit, count_failure,
}
use rustpress_plugin_authpro.Exec.{
  World, Exec, pure, lift, draw, fail_if, run_sql, tick, ◌>>=◌, ◌>>◌,
}
use rustpress_plugin_authpro.Exec.Stepping.{bind-nest, bind-of_returns}
use rustpress_plugin_authpro.Service.Password.{verify_password}
use rustpress_plugin_authpro.Service.Account.{increment_failed_attempts}
use rustpress_plugin_authpro.Service.Login.{check_password, open_session, login_as, login}
use rustpress_plugin_authpro.Service.Login.Branches.{open_session-users}
use rustpress_plugin_authpro.Service.Login.Lockout.{with_email, record_failure_lem}

module _ (x : Externals) (c : AuthConfig) where
  -- `login` up to the checks of the lock and of the status.
  unfoldable pub admit : LoginRequest → Exec User
  admit req = do
    found ← run_sql x (select_user_by_email req.email)
    user ← lift (ok_or found invalid_credentials)
    now ← draw x.utc_now
    fail_if (is_locked user now) account_locked
    fail_if (not (is_active user.status)) account_not_active
    pure user

  -- Requests that are admitted one after another.
  unfoldable pub admit_each : List LoginRequest → Exec (List (LoginRequest × User))
  admit_each [] = pure []
  admit_each (req ∷ reqs) = do user ← admit req; rest ← admit_each reqs; pure ((req, user) ∷ rest)

  module _ (ip agent : Option String) where
    -- From the check of the password on.
    unfoldable pub attend : LoginRequest → User → Exec AuthResponse
    attend req user = do
      verified ← lift (verify_password x c req.password user.password_hash)
      check_password x c user verified
      fail_if (c.require_email_verification && not (is_email_verified user)) email_not_verified
      open_session x c user ip agent

    -- The two parts are all of `login`.
    admit-attend :
        (req : LoginRequest) (w : World) → (admit req >>= attend req) w ≡ login x c req ip agent w
    unfolding admit attend login login_as pure
    admit-attend req w = bind-nest _ _ _ _ w (λ found v. bind-nest _ _ _ _ v (λ user v.
        bind-nest _ _ _ _ v (λ now v.
          bind-nest _ _ _ _ v
            (λ _ v. bind-nest _ _ _ _ v (λ _ v. bind-of_returns _ _ v v user refl)))))

    -- Each gets its answer, whatever it is.
    unfoldable pub attend_each : List (LoginRequest × User) → World → World
    attend_each [] w = w
    attend_each ((req, user) ∷ rest) w = attend_each rest (attend req user w).1

    -- All the requests are admitted before the first password is checked.
    unfoldable pub race : List LoginRequest → LoginRequest → Exec AuthResponse
    race guesses req = do
      admitted ← admit_each guesses
      user ← admit req
      (λ w. (ok tt, attend_each admitted w))
      attend req user
