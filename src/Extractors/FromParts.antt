-- ===== src/Extractors/FromParts.antt =====
-- `AuthUser::from_request_parts` and `try_auth_user` of extractors.rs.
use rustpress_plugin_authpro.Base.{String, true, not, Option, none, some, if◌then◌else◌}
use rustpress_plugin_authpro.Text.Prefix.{starts_with, trim_start_matches}
use rustpress_plugin_authpro.Models.{Instant}
use rustpress_plugin_authpro.Models.Claims.{AccessTokenClaims}
use rustpress_plugin_authpro.Externals.{Externals}
use rustpress_plugin_authpro.Extractors.{AuthUser, from_claims}
use rustpress_plugin_authpro.Middleware.{
  Checked, passed, refused, Request, and_then, or_refuse, or_else, authentication_required,
  invalid_header, configuration_error, bad_token,
}

-- `Result::ok`
abbrev ok : {A : Type 0} → Checked A → Option A
ok (passed a) = some a
ok (refused r) = none

-- `now` is the time at which jsonwebtoken checks the expiry.
module _ (x : Externals) (env : String → Option String) (now : Instant) where
  -- The token of a header, in `AuthUser::from_request_parts`.
  unfoldable pub extract_token : String → Checked AuthUser
  unfolding from_claims
  extract_token header =
      if not (starts_with "Bearer " header)
      then refused invalid_header
      else and_then (or_refuse (env "JWT_SECRET") configuration_error) (λ secret.
        and_then
          (or_refuse
            (x.decode_access secret
              (record {
                issuer = or_else (env "JWT_ISSUER") "rustpress";
                audience = some (or_else (env "JWT_AUDIENCE") "rustpress-api");
                checks_signature = true;
              })
              now (trim_start_matches "Bearer " header))
            bad_token)
          (λ claims. passed (from_claims claims)))

  abbrev extract : Option AccessTokenClaims → Option String → Checked AuthUser
  extract (some claims) header = passed (from_claims claims)
  extract none header = and_then (or_refuse header authentication_required) extract_token

  unfoldable pub from_request_parts : Request → Checked AuthUser
  unfolding extract_token from_claims
  from_request_parts req = extract req.claims req.authorization

  unfoldable pub try_auth_user : Request → Option AuthUser
  unfolding from_request_parts
  try_auth_user req = ok (from_request_parts req)
