-- ===== src/Service/Reset/NewPassword.antt =====
-- A password from its reset to the first login with it.
use rustpress_plugin_authpro.Base.{
  suc, ◌≡◌, refl, ◌∙◌, String, str_eq, true, false, not, ◌&&◌, some, Option, ◌==◌,
  find_where-update,
}
use rustpress_plugin_authpro.Error.{ok}
use rustpress_plugin_authpro.Models.{User, is_active, is_locked, is_email_verified}
use rustpress_plugin_authpro.Models.Requests.{ResetPasswordRequest, LoginRequest}
use rustpress_plugin_authpro.Models.Responses.{AuthResponse, from_user}
use rustpress_plugin_authpro.Config.{AuthConfig}
use rustpress_plugin_authpro.Externals.{Externals}
use rustpress_plugin_authpro.Db.Users.{with_password}
use rustpress_plugin_authpro.Exec.{World, tick}
use rustpress_plugin_authpro.Service.Password.Verifies.{VerifiesOwn, verify_password-hash_with_salt}
use rustpress_plugin_authpro.Service.Token.Issues.{AccessReady, RefreshReady}
use rustpress_plugin_authpro.Service.Reset.{reset_password}
use rustpress_plugin_authpro.Service.Reset.Complete.{ResetReady, reset_world, reset_succeeds}
use rustpress_plugin_authpro.Service.Login.{login}
use rustpress_plugin_authpro.Service.Login.Lockout.{with_email}
use rustpress_plugin_authpro.Service.Login.Complete.{
  LoginReady, recorded, session_response, login_succeeds,
}

module _ (x : Externals) (c : AuthConfig) (req : ResetPasswordRequest) (w : World)
    (h : ResetReady x c req w) (u : User) (ip agent : Option String) (access : String) where
  abbrev after_reset : World
  after_reset = reset_world x c req w h

  abbrev pub reset_user : User
  reset_user = with_password h.hash (x.db_now (suc (suc w.step))) u

  abbrev pub new_login : LoginRequest
  new_login = record { email = u.email; password = req.password }

  -- The token is that of `u`, whom the email finds, and who may log in; argon2 verifies its own
  -- hashes, and the tokens of the login can be made and stored.
  pub record ReturnsWith : Type 0 where
    pub own : VerifiesOwn x c
    pub by_email : with_email u.email w.db ≡ some u
    pub owner : (u.id == h.token.user_id) ≡ true
    pub unlocked : is_locked u (x.utc_now (suc after_reset.step)) ≡ false
    pub is_live : is_active u.status ≡ true
    pub confirmed : (c.require_email_verification && not (is_email_verified u)) ≡ false
    pub access_ready :
        AccessReady x c reset_user
          (recorded x c new_login ip agent after_reset reset_user access)
          access
    pub refresh_ready :
        RefreshReady x c u.id ip
          (tick (tick (recorded x c new_login ip agent after_reset reset_user access)))

  reset_email : ReturnsWith → with_email u.email after_reset.db ≡ some reset_user
  reset_email k =
      find_where-update (λ v. str_eq v.email u.email) (λ v. v.id == h.token.user_id)
        (with_password h.hash (x.db_now (suc (suc w.step)))) (λ v. refl) w.db.users
      ∙ rw k.by_email (rw k.owner refl)

  ready : ReturnsWith → LoginReady x c new_login ip agent after_reset reset_user access
  unfolding is_locked is_email_verified
  ready k = record {
    healthy = h.healthy;
    by_email = reset_email k;
    unlocked = k.unlocked;
    is_live = k.is_live;
    right = verify_password-hash_with_salt x c req.password _ h.hash k.own h.hashed;
    confirmed = k.confirmed;
    access_ready = k.access_ready;
    refresh_ready = k.refresh_ready;
  }

  -- A new password logs in: a reset with a usable token and a strong password succeeds, and where
  -- its user is active, not locked and verified if that is demanded, so does a login that comes next
  -- with the new password, as that user, provided that argon2 verifies its own hashes, no statement
  -- fails, and the tokens can be made and stored.
  pub reset_password-login :
      ReturnsWith
      → (reset_password x c req w ≡ (ok tt, after_reset))
        × ((r : AuthResponse) × (w' : World) × (login x c new_login ip agent after_reset
              ≡ (ok r, w'))
            × (r.user ≡ from_user u))
  unfolding from_user is_email_verified
  reset_password-login k = (
    reset_succeeds x c req w h,
    (
      session_response x c new_login ip agent after_reset reset_user access (ready k),
      _,
      login_succeeds x c new_login ip agent after_reset reset_user access (ready k),
      refl,
    ),
  )
