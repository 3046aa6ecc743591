-- ===== src/Service/Token.antt =====
-- The section "JWT Token Generation" of service.rs, with `base64_url_encode` of its last lines.
pub mod Issued
pub mod Issues
use rustpress_plugin_authpro.Base.{ℕ, String, Bool, str_append, Option, none, some}
use rustpress_plugin_authpro.Base.Int.{ℤ}
use rustpress_plugin_authpro.Text.{hex_u64, base64_url_encode}
use rustpress_plugin_authpro.Error.{ok_or, or_panic, invalid_token}
use rustpress_plugin_authpro.Models.{Uuid, Instant, User}
use rustpress_plugin_authpro.Models.Roles.{as_str}
use rustpress_plugin_authpro.Models.Claims.{AccessTokenClaims, RefreshTokenClaims}
use rustpress_plugin_authpro.Config.{AuthConfig}
use rustpress_plugin_authpro.Externals.{Externals, Validation}
use rustpress_plugin_authpro.Db.RefreshTokens.{insert_refresh_token}
use rustpress_plugin_authpro.Exec.{Exec, pure, lift, draw, run_sql, ◌>>=◌, ◌>>◌}

module _ (x : Externals) (c : AuthConfig) where
  -- `hash_token`
  unfoldable pub hash_token : String → String
  hash_token token = hex_u64 (x.finish token c.jwt_secret)

  -- `now + Duration::seconds(n)`
  unfoldable pub expiry : Instant → ℤ → Exec Instant
  expiry now seconds = lift (or_panic (x.add_seconds now seconds) "overflow")

  abbrev pub access_claims : User → Instant → Instant → Uuid → AccessTokenClaims
  access_claims user now exp jti = record {
    sub = user.id;
    email = user.email;
    name = user.name;
    role = as_str user.role;
    iat = x.timestamp now;
    exp = x.timestamp exp;
    iss = c.jwt_issuer;
    aud = c.jwt_audience;
    jti = jti;
  }

  unfoldable pub generate_access_token : User → Exec String
  unfolding expiry
  generate_access_token user = do
    now ← draw x.utc_now
    exp ← expiry now c.access_token_expiration
    jti ← draw x.new_uuid
    lift (ok_or (x.encode_access c.jwt_secret (access_claims user now exp jti)) invalid_token)

  abbrev pub refresh_claims : Uuid → Uuid → Instant → Instant → RefreshTokenClaims
  refresh_claims user_id token_id now exp = record {
    sub = user_id;
    tid = token_id;
    iat = x.timestamp now;
    exp = x.timestamp exp;
    iss = c.jwt_issuer;
  }

  unfoldable pub generate_refresh_token : Uuid → Option String → Option String → Exec String
  unfolding expiry
  generate_refresh_token user_id ip_address user_agent = do
    token_id ← draw x.new_uuid
    now ← draw x.utc_now
    exp ← expiry now c.refresh_token_expiration
    token_bytes ← draw x.random_bytes
    let token_string = base64_url_encode token_bytes
    run_sql x
        (insert_refresh_token token_id user_id (hash_token token_string) exp ip_address user_agent)
    jwt ← lift (
        ok_or (x.encode_refresh c.jwt_secret (refresh_claims user_id token_id now exp))
          invalid_token)
    pure (str_append jwt (str_append "." token_string))

  unfoldable pub validate_access_token : String → Exec AccessTokenClaims
  validate_access_token token = do
    now ← draw x.utc_now
    lift (ok_or (x.decode_access c.jwt_secret validation now token) invalid_token)
    where
      validation : Validation
      validation = record {
        issuer = c.jwt_issuer;
        audience = some c.jwt_audience;
        checks_signature = Bool.true;
      }

  -- `decode::<RefreshTokenClaims>`, with or without the check of the signature.
  unfoldable pub decode_refresh_token : Bool → String → Exec RefreshTokenClaims
  decode_refresh_token checks_signature jwt = do
    now ← draw x.utc_now
    lift (ok_or (x.decode_refresh c.jwt_secret validation now jwt) invalid_token)
    where
      validation : Validation
      validation = record {
        issuer = c.jwt_issuer;
        audience = none;
        checks_signature = checks_signature;
      }
