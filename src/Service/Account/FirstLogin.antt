-- ===== src/Service/Account/FirstLogin.antt =====
-- An account from its registration to its first login.
use rustpress_plugin_authpro.Base.{
  ℕ, ◌≡◌, refl, String, str_eq, eq_refl, false, Option, none, some, find_where-none,
  find_where-last,
}
use rustpress_plugin_authpro.Error.{ok}
use rustpress_plugin_authpro.Models.{User, is_locked}
use rustpress_plugin_authpro.Models.Requests.{RegisterRequest, LoginRequest}
use rustpress_plugin_authpro.Models.Responses.{AuthResponse, from_user}
use rustpress_plugin_authpro.Config.{AuthConfig}
use rustpress_plugin_authpro.Externals.{Externals}
use rustpress_plugin_authpro.Exec.{World, tick}
use rustpress_plugin_authpro.Exec.Inversion.{Returns}
use rustpress_plugin_authpro.Service.Password.Verifies.{VerifiesOwn, verify_password-hash_with_salt}
use rustpress_plugin_authpro.Service.Token.Issues.{AccessReady, RefreshReady}
use rustpress_plugin_authpro.Service.Account.{register}
use rustpress_plugin_authpro.Service.Account.Registered.{Registered, register-Returns}
use rustpress_plugin_authpro.Service.Login.{login}
use rustpress_plugin_authpro.Service.Login.Lockout.{with_email}
use rustpress_plugin_authpro.Service.Login.Complete.{
  LoginReady, recorded, session_response, login_succeeds,
}

-- The email and the password of the registration.
abbrev pub own_login : RegisterRequest → LoginRequest
own_login req = record { email = req.email; password = req.password }

module _ (x : Externals) (c : AuthConfig) (req : RegisterRequest) (w w' : World) (u : User)
    (ip agent : Option String) (access : String) where
  -- Statements are answered, argon2 verifies its own hashes, no verified email is demanded, and the
  -- tokens can be made and stored.
  pub record FirstReady : Type 0 where
    pub healthy : (n : ℕ) → x.db_fault n ≡ none
    pub own : VerifiesOwn x c
    pub undemanding : c.require_email_verification ≡ false
    pub access_ready : AccessReady x c u (recorded x c (own_login req) ip agent w' u access) access
    pub refresh_ready :
        RefreshReady x c u.id ip (tick (tick (recorded x c (own_login req) ip agent w' u access)))

  email_finds : Registered x c req w u w' → with_email req.email w'.db ≡ some u
  email_finds r = rw r.stored (
      find_where-last (λ v. str_eq v.email req.email) w.db.users u
        (find_where-none (λ v. str_eq v.email req.email) (λ v. str_eq v.email req.email) (λ v e. e)
          w.db.users r.new_email)
        (rw r.created (eq_refl req.email)))

  ready :
      Registered x c req w u w' → FirstReady → LoginReady x c (own_login req) ip agent w' u access
  unfolding is_locked
  ready r h = record {
    healthy = h.healthy;
    by_email = email_finds r;
    unlocked = rw r.created refl;
    is_live = rw r.created refl;
    right =
        rw r.created
          (verify_password-hash_with_salt x c req.password _ r.password_hash h.own r.hashed);
    confirmed = rw h.undemanding refl;
    access_ready = h.access_ready;
    refresh_ready = h.refresh_ready;
  }

  -- Who registered can log in: where a registration succeeded, a login that comes next with the same
  -- email and password succeeds, as the user who was registered, provided that argon2 verifies its
  -- own hashes, no verified email is demanded, no statement fails, and the tokens can be made and
  -- stored.
  pub register-login :
      Returns (register x c req) w u w'
      → FirstReady
      → (r : AuthResponse) × (w'' : World) × (login x c (own_login req) ip agent w' ≡ (ok r, w''))
        × (r.user ≡ from_user u)
  register-login e h =
      let k = ready (register-Returns x c req w w' u e) h in
      (
        session_response x c (own_login req) ip agent w' u access k,
        _,
        login_succeeds x c (own_login req) ip agent w' u access k,
        refl,
      )
