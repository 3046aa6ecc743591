-- ===== src/Examples/Requests.antt =====
-- Registrations, requests to the handlers, the middleware and the limiter.
use rustpress_plugin_authpro.Base.{
  ◌≡◌, ◌↔◌, refl, String, str_eq, true, Option, none, some, if◌then◌else◌,
}
use rustpress_plugin_authpro.Base.Int.{pos}
use rustpress_plugin_authpro.Models.{User}
use rustpress_plugin_authpro.Models.Claims.{AccessTokenClaims}
use rustpress_plugin_authpro.Models.Requests.{RegisterRequest, ForgotPasswordRequest}
use rustpress_plugin_authpro.Externals.{Externals}
use rustpress_plugin_authpro.Db.Users.{select_user_by_email, new_user}
use rustpress_plugin_authpro.Exec.{World, tick, ◌>>=◌}
use rustpress_plugin_authpro.Service.Account.{register}
use rustpress_plugin_authpro.Service.Login.Lockout.{with_email}
use rustpress_plugin_authpro.Service.Reset.{issue_reset, forgot_password}
use rustpress_plugin_authpro.Handlers as Handlers
use rustpress_plugin_authpro.Handlers.Validation.{Validator, validated, check, forgot_failures}
use rustpress_plugin_authpro.Handlers.Enumeration.{forgot_password_reveals}
use rustpress_plugin_authpro.Middleware.{Request}
use rustpress_plugin_authpro.Examples.{world_outside, settings, start, tables}

abbrev bob : RegisterRequest
bob = record { email = "bob@example.org"; password = "Aa1"; password_confirm = "Aa1"; name = "Bob" }

abbrev new_bob : User
new_bob = new_user 102 "bob@example.org" "Aa1salt" "Bob" 1003

abbrev with_bob : World
with_bob = (register world_outside settings bob start).1

abbrev after_forgot : World
after_forgot = (forgot_password world_outside settings "alice@example.org" start).1

abbrev issued_text : String
issued_text = "01"

abbrev validator : Validator
validator = record { valid_email = λ s. true; describe = λ failures. "invalid" }

abbrev nobody : ForgotPasswordRequest
nobody = record { email = "nobody@example.org" }

abbrev no_reply : Handlers.ForgotReply
no_reply = record {
  message = "If an account with that email exists, a password reset link has been sent.";
  reset_token = none;
}

forgot_password_reveals_example :
    no_reply.reset_token ≡ none ↔ with_email "nobody@example.org" tables ≡ none
unfolding Handlers.forgot_password validated forgot_failures check forgot_password issue_reset
    select_user_by_email ◌>>=◌
forgot_password_reveals_example =
    forgot_password_reveals world_outside settings validator (λ n e. cc e) nobody start (tick start)
      no_reply refl

abbrev admin_claims : AccessTokenClaims
admin_claims = record {
  sub = 1;
  email = "alice@example.org";
  name = "Alice";
  role = "admin";
  iat = pos 900;
  exp = pos 5000;
  iss = "rustpress";
  aud = "rustpress-api";
  jti = 5;
}

abbrev decoder : Externals
decoder = record world_outside {
  decode_access = λ secret v now s. if str_eq s "abc" then some admin_claims else none;
}

abbrev environment : String → Option String
environment name =
    if str_eq name "JWT_SECRET" then some "an-example-secret-of-32-characters" else none

abbrev asking : Request
asking = record { authorization = some "Bearer abc"; claims = none }
