-- ===== src/Router/Serve.antt =====
-- A request that was routed and whose body was parsed: the limiter or `require_auth`, the extractors
-- and the handler, and the response that axum makes of the handler's result.
use rustpress_plugin_authpro.Base.{String, Option, none, some}
use rustpress_plugin_authpro.Error.{Outcome, ok, err, panic}
use rustpress_plugin_authpro.Error.Response.{ErrorResponse, into_response}
use rustpress_plugin_authpro.Models.Requests.{
  LoginRequest, RegisterRequest, RefreshTokenRequest, ForgotPasswordRequest, ResetPasswordRequest,
  ChangePasswordRequest, VerifyEmailRequest,
}
use rustpress_plugin_authpro.Models.Responses.{AuthResponse, TokenResponse, MessageResponse}
use rustpress_plugin_authpro.Config.{AuthConfig}
use rustpress_plugin_authpro.Externals.{Externals}
use rustpress_plugin_authpro.Exec.{Exec, World, pure, draw, ◌>>=◌}
use rustpress_plugin_authpro.Handlers as Handlers
use rustpress_plugin_authpro.Handlers.Validation.{Validator}
use rustpress_plugin_authpro.Extractors.{AuthUser, ClientInfo, client_info}
use rustpress_plugin_authpro.Extractors.FromParts.{from_request_parts}
use rustpress_plugin_authpro.Middleware.{Checked, passed, refused, and_then, require_auth}
use rustpress_plugin_authpro.RateLimit.Answers.{
  GovernorError, PlainResponse, rate_limit_error_handler, Limiter, unlimited, governed,
}

-- A body for each endpoint.
pub data Limited : Type 0 where
  registers : RegisterRequest → Limited
  logs_in : LoginRequest → Limited
  refreshes : RefreshTokenRequest → Limited
  forgets_password : ForgotPasswordRequest → Limited
  resets_password : ResetPasswordRequest → Limited

pub data Public : Type 0 where
  logs_out : RefreshTokenRequest → Public
  verifies_email : VerifyEmailRequest → Public

pub data Protected : Type 0 where
  asks_me asks_verification : Protected
  changes_password : ChangePasswordRequest → Protected

pub data Reply : Type 0 where
  registered : Handlers.RegisterReply → Reply
  session : AuthResponse → Reply
  tokens : TokenResponse → Reply
  message : MessageResponse → Reply
  forgot : Handlers.ForgotReply → Reply
  verified : Handlers.VerifyReply → Reply
  resent : Handlers.ResendReply → Reply
  me : AuthUser → Reply
  failed : ErrorResponse → Reply
  throttled : PlainResponse → Reply

abbrev pub reply_of : {A : Type 0} → (A → Reply) → Outcome A × World → Outcome Reply × World
reply_of f (ok a, w) = (ok (f a), w)
reply_of f (err e, w) = (ok (failed (into_response e)), w)
reply_of f (panic m, w) = (panic m, w)

-- The response to a handler's result: an `AuthError` is made one by `into_response`.
unfoldable pub respond : {A : Type 0} → (A → Reply) → Exec A → Exec Reply
respond f m w = reply_of f (m w)

module _ (x : Externals) (c : AuthConfig) (v : Validator) where
  unfoldable pub handle_limited : ClientInfo → Limited → Exec Reply
  handle_limited client (registers req) = respond registered (Handlers.register x c v req)
  handle_limited client (logs_in req) =
      respond session (Handlers.login x c v req client.ip client.user_agent)
  handle_limited client (refreshes req) =
      respond tokens (Handlers.refresh_token x c v req client.ip client.user_agent)
  handle_limited client (forgets_password req) = respond forgot (Handlers.forgot_password x c v req)
  handle_limited client (resets_password req) = respond message (Handlers.reset_password x c v req)

  unfoldable pub handle_public : Public → Exec Reply
  handle_public (logs_out req) = respond message (Handlers.logout x c v req)
  handle_public (verifies_email req) = respond verified (Handlers.verify_email x c v req)

  unfoldable pub handle_protected : AuthUser → Protected → Exec Reply
  handle_protected user asks_me = respond me (Handlers.get_current_user x c v user)
  handle_protected user asks_verification = respond resent (Handlers.resend_verification x c v user)
  handle_protected user (changes_password req) =
      respond message (Handlers.change_password x c v user req)

  -- `decide` is the limiter's verdict on the request: nothing, or the error that it is turned away
  -- with.
  abbrev pub serve_governed : Option GovernorError → ClientInfo → Limited → Exec Reply
  serve_governed none client req = handle_limited client req
  serve_governed (some e) client req = pure (throttled (rate_limit_error_handler e))

  abbrev pub under : Limiter → Option GovernorError → Option GovernorError
  under unlimited verdict = none
  under (governed period burst) verdict = verdict

  unfoldable pub serve_limited :
      Limiter → Option GovernorError → (String → Option String) → Limited → Exec Reply
  serve_limited limiter verdict headers req =
      serve_governed (under limiter verdict) (client_info headers) req

  abbrev pub serve_checked : Checked AuthUser → Protected → Exec Reply
  serve_checked (passed user) req = handle_protected user req
  serve_checked (refused r) req = pure (failed r)

  unfoldable pub serve_protected :
      (String → Option String) → (String → Option String) → Protected → Exec Reply
  serve_protected env headers req = do
    now ← draw x.utc_now
    serve_checked
        (and_then
          (require_auth x env now
            (record { authorization = headers "Authorization"; claims = none }))
          (from_request_parts x env now))
        req
