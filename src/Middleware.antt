-- ===== src/Middleware.antt =====
-- middleware.rs: the guards before a handler. The environment is a function, `none` for a variable
-- that is not set.
pub mod Guards
pub mod OwnTokens
use rustpress_plugin_authpro.Base.{
  String, str_eq, Bool, true, false, not, Option, none, some, List, any, if◌then◌else◌,
}
use rustpress_plugin_authpro.Text.Prefix.{starts_with, trim_start_matches}
use rustpress_plugin_authpro.Error.Response.{ErrorResponse}
use rustpress_plugin_authpro.Models.{Instant}
use rustpress_plugin_authpro.Models.Claims.{AccessTokenClaims}
use rustpress_plugin_authpro.Externals.{Externals, Validation}

-- `Result<A, Response>`
pub data Checked (A : Type 0) : Type 0 where
  passed : A → Checked A
  refused : ErrorResponse → Checked A

-- What the code reads and writes of a request: the Authorization header, if it is visible ASCII,
-- and the claims among its extensions.
pub record Request : Type 0 where
  pub authorization : Option String
  pub claims : Option AccessTokenClaims

abbrev pub and_then : {A B : Type 0} → Checked A → (A → Checked B) → Checked B
and_then (passed a) f = f a
and_then (refused r) f = refused r

abbrev pub or_refuse : {A : Type 0} → Option A → ErrorResponse → Checked A
or_refuse none r = refused r
or_refuse (some a) r = passed a

abbrev pub or_else : Option String → String → String
or_else none s = s
or_else (some t) s = t

abbrev pub authentication_required : ErrorResponse
authentication_required = record {
  status = 401;
  error = "unauthorized";
  message = "Authentication required";
}

abbrev pub invalid_header : ErrorResponse
invalid_header = record {
  status = 401;
  error = "unauthorized";
  message = "Invalid authorization header format";
}

abbrev pub configuration_error : ErrorResponse
configuration_error = record {
  status = 500;
  error = "configuration_error";
  message = "Server configuration error";
}

abbrev pub bad_token : ErrorResponse
bad_token = record { status = 401; error = "invalid_token"; message = "Invalid or expired token" }

abbrev pub forbidden : String → ErrorResponse
forbidden message = record { status = 403; error = "forbidden"; message = message }

-- `now` is the time at which jsonwebtoken checks the expiry.
module _ (x : Externals) (env : String → Option String) (now : Instant) where
  unfoldable pub get_decoding_key : Checked String
  get_decoding_key = or_refuse (env "JWT_SECRET") configuration_error

  unfoldable pub get_validation : Validation
  get_validation = record {
    issuer = or_else (env "JWT_ISSUER") "rustpress";
    audience = some (or_else (env "JWT_AUDIENCE") "rustpress-api");
    checks_signature = true;
  }

  unfoldable pub validate_header : String → Checked AccessTokenClaims
  unfolding get_decoding_key get_validation
  validate_header header =
      if not (starts_with "Bearer " header)
      then refused invalid_header
      else and_then get_decoding_key (λ key.
        or_refuse (x.decode_access key get_validation now (trim_start_matches "Bearer " header))
          bad_token)

  unfoldable pub validate_token : Option String → Checked AccessTokenClaims
  unfolding validate_header
  validate_token auth_header =
      and_then (or_refuse auth_header authentication_required) validate_header

  abbrev pub store : Request → AccessTokenClaims → Request
  store req claims = record req { claims = some claims }

  -- The request that `next` runs on, or the response in its place.
  unfoldable pub require_auth : Request → Checked Request
  unfolding validate_token
  require_auth req =
      and_then (validate_token req.authorization) (λ claims. passed (store req claims))

  unfoldable pub require_admin : Request → Checked Request
  unfolding validate_token
  require_admin req = and_then (validate_token req.authorization) (λ claims.
      if not (str_eq claims.role "admin")
      then refused (forbidden "Admin access required")
      else passed (store req claims))

  unfoldable pub require_role : List String → Request → Checked Request
  unfolding validate_token
  require_role roles req = and_then (validate_token req.authorization) (λ claims.
      if not (any (λ role. str_eq role claims.role) roles)
      then refused (forbidden "Insufficient permissions")
      else passed (store req claims))

  abbrev pub store_if_valid : Request → Checked AccessTokenClaims → Request
  store_if_valid req (passed claims) = store req claims
  store_if_valid req (refused r) = req

  abbrev optional_header : Request → Option String → Request
  optional_header req none = req
  optional_header req (some header) = store_if_valid req (validate_token (some header))

  unfoldable pub optional_auth : Request → Request
  unfolding validate_token
  optional_auth req = optional_header req req.authorization
