-- ===== src/Examples/Routes.antt =====
-- Requests to the routes.
use rustpress_plugin_authpro.Base.{
  ◌≡◌, refl, true, ◌⊎◌, String, str_eq, Option, none, some, if◌then◌else◌,
}
use rustpress_plugin_authpro.Base.Int.{pos}
use rustpress_plugin_authpro.Text.Trim.{before_comma, trim}
use rustpress_plugin_authpro.Text.Prefix.{
  starts_with, strip_prefix, trim_start_matches, trim_prefixes,
}
use rustpress_plugin_authpro.Error.{ok}
use rustpress_plugin_authpro.Error.Response.{ErrorResponse}
use rustpress_plugin_authpro.Models.{is_locked}
use rustpress_plugin_authpro.Models.Roles.{as_str}
use rustpress_plugin_authpro.Models.Claims.{AccessTokenClaims}
use rustpress_plugin_authpro.Models.Requests.{LoginRequest, ChangePasswordRequest}
use rustpress_plugin_authpro.Config.{AuthConfig}
use rustpress_plugin_authpro.Config.Env.{from_env, with_secret}
use rustpress_plugin_authpro.Externals.{Externals}
use rustpress_plugin_authpro.Exec.{World, tick}
use rustpress_plugin_authpro.Service.Password.{verify_password}
use rustpress_plugin_authpro.Service.Token.{generate_access_token}
use rustpress_plugin_authpro.Service.Account.Others.{OthersKept}
use rustpress_plugin_authpro.Handlers.Validation.{Validator, login_failures, check}
use rustpress_plugin_authpro.Extractors.{from_claims, client_info}
use rustpress_plugin_authpro.Middleware.{
  passed, refused, validate_token, validate_header, get_decoding_key, get_validation, require_auth,
}
use rustpress_plugin_authpro.Middleware.OwnTokens.{
  OwnToken, bearing, own_claims, generate_access_token-require_auth,
}
use rustpress_plugin_authpro.RateLimit.Answers.{unlimited}
use rustpress_plugin_authpro.Router.Serve.{
  asks_me, changes_password, failed, handle_protected, serve_protected, logs_in, serve_limited,
}
use rustpress_plugin_authpro.Router.Guarded.{serve_protected_lem, change_password-serves_own}
use rustpress_plugin_authpro.Router.Addresses.{LongAddress, serve_limited-too_long}
use rustpress_plugin_authpro.Examples.{world_outside, settings, alice, start, tables}

abbrev validator : Validator
validator = record { valid_email = λ s. true; describe = λ failures. "invalid" }

abbrev environment : String → Option String
environment name =
    if str_eq name "JWT_SECRET" then some "an-example-secret-of-32-characters" else none

abbrev claims : AccessTokenClaims
claims = record {
  sub = 1;
  email = "alice@example.org";
  name = "Alice";
  role = "user";
  iat = pos 1000;
  exp = pos 1900;
  iss = "rustpress";
  aud = "rustpress-api";
  jti = 101;
}

abbrev decoder : Externals
decoder = record world_outside {
  decode_access = λ secret v now s. if str_eq s "access" then some claims else none;
}

abbrev headers : String → Option String
headers name = if str_eq name "Authorization" then some "Bearer access" else none

serve_protected_lem_example :
    ((claims : AccessTokenClaims) × (validate_token decoder environment 1000
          (headers "Authorization")
        ≡ passed claims)
      × (serve_protected decoder settings validator environment headers asks_me start
          ≡ handle_protected decoder settings validator (from_claims claims) asks_me (tick start)))
    ⊎ ((r : ErrorResponse) × (validate_token decoder environment 1000 (headers "Authorization")
          ≡ refused r)
        × (serve_protected decoder settings validator environment headers asks_me start
            ≡ (ok (failed r), tick start)))
serve_protected_lem_example =
    serve_protected_lem decoder settings validator environment headers asks_me start

abbrev change : ChangePasswordRequest
change = record { current_password = "Aa1"; new_password = "Bb2"; new_password_confirm = "Bb2" }

change_password-serves_own_example :
    OthersKept 1 tables
      (serve_protected decoder settings validator environment headers
        (changes_password change)
        start).1.db
unfolding validate_token validate_header get_decoding_key get_validation starts_with strip_prefix
    trim_start_matches trim_prefixes
change_password-serves_own_example =
    change_password-serves_own decoder settings validator environment headers change start claims
      refl

abbrev loaded_settings : AuthConfig
unfolding with_secret
loaded_settings = with_secret "an-example-secret-of-32-characters" environment

own_token : OwnToken decoder environment loaded_settings alice start 1500 "access"
unfolding from_env with_secret starts_with strip_prefix as_str
own_token = record {
  loaded = refl;
  made = record { exp = 1900; expires = refl; encoded = refl };
  clean = refl;
  decoded = refl;
}

generate_access_token-require_auth_example :
    (generate_access_token decoder loaded_settings alice start ≡ (ok "access", tick (tick start)))
    × (require_auth decoder environment 1500
          (bearing decoder environment loaded_settings alice start 1500 "access")
        ≡ passed (record (bearing decoder environment loaded_settings alice start 1500 "access") {
          claims =
              some (
                own_claims decoder environment loaded_settings alice start 1500 "access" own_token);
        }))
    × ((from_claims
          (own_claims decoder environment loaded_settings alice start 1500 "access" own_token)).id
        ≡ 1)
    × ((from_claims
          (own_claims decoder environment loaded_settings alice start 1500 "access" own_token)).role
        ≡ as_str alice.role)
generate_access_token-require_auth_example =
    generate_access_token-require_auth decoder environment loaded_settings alice start 1500 "access"
      own_token

abbrev from_afar : String → Option String
from_afar name =
    if str_eq name "X-Forwarded-For"
    then some "a-name-that-is-far-too-long-to-be-the-address-of-anything, ::1"
    else none

abbrev right : LoginRequest
right = record { email = "alice@example.org"; password = "Aa1" }

long_address : LongAddress world_outside settings validator from_afar right start alice
unfolding is_locked verify_password login_failures check client_info before_comma trim
long_address = record {
  healthy = λ n. refl;
  well_formed = refl;
  by_email = refl;
  known = refl;
  unlocked = refl;
  is_live = refl;
  right = refl;
  confirmed = refl;
  too_long = refl;
}

serve_limited-too_long_example :
    (e : ErrorResponse) × (w' : World) × (serve_limited world_outside settings validator unlimited
        none from_afar
        (logs_in right)
        start
      ≡ (ok (failed e), w'))
    × (e.status ≡ 500)
    × (e.error ≡ "internal_error")
    × (w'.db ≡ start.db)
serve_limited-too_long_example =
    serve_limited-too_long world_outside settings validator from_afar right start alice long_address
