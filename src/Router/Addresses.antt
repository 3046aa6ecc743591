-- ===== src/Router/Addresses.antt =====
-- The address of a client, which the client's own headers may give, at POST /auth/login.
use rustpress_plugin_authpro.Base.{
  ℕ, suc, ◌≡◌, refl, String, true, false, not, ◌&&◌, Option, none, some, [], any, ◌==◌,
}
use rustpress_plugin_authpro.Error.{ok, err, database}
use rustpress_plugin_authpro.Error.Response.{ErrorResponse, into_response}
use rustpress_plugin_authpro.Models.{User, is_active, is_locked, is_email_verified}
use rustpress_plugin_authpro.Models.Requests.{LoginRequest}
use rustpress_plugin_authpro.Config.{AuthConfig}
use rustpress_plugin_authpro.Externals.{Externals}
use rustpress_plugin_authpro.Db.{fail, fits?}
use rustpress_plugin_authpro.Db.Users.{select_user_by_email, record_success}
use rustpress_plugin_authpro.Exec.{World, tick, ◌>>=◌}
use rustpress_plugin_authpro.Extractors.{client_info}
use rustpress_plugin_authpro.Handlers as Handlers
use rustpress_plugin_authpro.Handlers.Validation.{Validator, validated, login_failures}
use rustpress_plugin_authpro.Service.Password.{verify_password}
use rustpress_plugin_authpro.Service.Account.{record_successful_login}
use rustpress_plugin_authpro.Service.Login as Logins
use rustpress_plugin_authpro.Service.Login.{login_as, check_password, open_session}
use rustpress_plugin_authpro.Service.Login.Lockout.{with_email}
use rustpress_plugin_authpro.RateLimit.Answers.{unlimited}
use rustpress_plugin_authpro.Router.Serve.{logs_in, failed, respond, handle_limited, serve_limited}

module _ (x : Externals) (c : AuthConfig) (v : Validator) (headers : String → Option String)
    (req : LoginRequest) (w : World) (u : User) where
  -- The user may log in with this password, and the address does not fit its column.
  pub record LongAddress : Type 0 where
    pub healthy : (n : ℕ) → x.db_fault n ≡ none
    pub well_formed : login_failures v req ≡ []
    pub by_email : with_email req.email w.db ≡ some u
    pub known : any (λ k. k.id == u.id) w.db.users ≡ true
    pub unlocked : is_locked u (x.utc_now (suc w.step)) ≡ false
    pub is_live : is_active u.status ≡ true
    pub right : verify_password x c req.password u.password_hash ≡ ok true
    pub confirmed : (c.require_email_verification && not (is_email_verified u)) ≡ false
    pub too_long : fits? 45 (client_info headers).ip ≡ false

  record_success-too_long :
      LongAddress
      → record_success u.id (client_info headers).ip (x.db_now (suc (suc w.step))) w.db
        ≡ fail "value too long"
  unfolding record_success
  record_success-too_long h = rw (h.too_long, h.known)

  login-too_long :
      LongAddress
      → Logins.login x c req (client_info headers).ip (client_info headers).user_agent w
        ≡ (err (database "value too long"), tick (tick (tick w)))
  unfolding Logins.login login_as check_password open_session select_user_by_email
      record_successful_login ◌>>=◌
  login-too_long h = simp (
    h.healthy,
    h.by_email,
    h.unlocked,
    h.is_live,
    h.right,
    h.confirmed,
    record_success-too_long h,
  )

  too_long_run :
      LongAddress
      → serve_limited x c v unlimited none headers (logs_in req) w
        ≡ (ok (failed (into_response (database "value too long"))), tick (tick (tick w)))
  unfolding serve_limited handle_limited respond Handlers.login validated ◌>>=◌
  too_long_run h = simp (h.well_formed, login-too_long h)

  -- A user with the right password cannot log in from an address of more than 45 characters, which
  -- a header may give: the answer has the status 500 and the code of an internal error, and no table
  -- is written.
  pub serve_limited-too_long :
      LongAddress
      → (e : ErrorResponse) × (w' : World) × (serve_limited x c v unlimited none headers
            (logs_in req)
            w
          ≡ (ok (failed e), w'))
        × (e.status ≡ 500)
        × (e.error ≡ "internal_error")
        × (w'.db ≡ w.db)
  unfolding into_response
  serve_limited-too_long h = (_, _, too_long_run h, refl, refl, refl)
