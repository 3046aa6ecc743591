-- ===== src/Config/Settings.antt =====
-- What `from_env` returns, by whether the secret is set, and what of it the guards of the middleware
-- read again.
use rustpress_plugin_authpro.Base.{◌≡◌, refl, ap, ◌∙◌, sym, String, Option, none, some}
use rustpress_plugin_authpro.Error.{ok, panic}
use rustpress_plugin_authpro.Config.{AuthConfig}
use rustpress_plugin_authpro.Config.Env.{text_or, with_secret, from_env}

pub from_env-no_secret :
    (env : String → Option String)
    → env "JWT_SECRET" ≡ none
    → from_env env ≡ panic "JWT_SECRET environment variable must be set"
unfolding from_env
from_env-no_secret env unset = rw (unset, from_env)

pub from_env-with_secret :
    (env : String → Option String) (secret : String)
    → env "JWT_SECRET" ≡ some secret
    → from_env env ≡ ok (with_secret secret env)
unfolding from_env
from_env-with_secret env secret given = rw (given, from_env)

-- The settings of a configuration that the tokens are made and checked with.
pub record TokenSettings (env : String → Option String) (c : AuthConfig) : Type 0 where
  pub secret : env "JWT_SECRET" ≡ some c.jwt_secret
  pub issuer : c.jwt_issuer ≡ text_or (env "JWT_ISSUER") "rustpress"
  pub audience : c.jwt_audience ≡ text_or (env "JWT_AUDIENCE") "rustpress-api"

pub from_env-TokenSettings :
    (env : String → Option String) (c : AuthConfig) → from_env env ≡ ok c → TokenSettings env c
unfolding with_secret
from_env-TokenSettings env c loaded = by_secret (env "JWT_SECRET") refl
  where
    by_secret : (o : Option String) → env "JWT_SECRET" ≡ o → TokenSettings env c
    by_secret none e = cc (from_env-no_secret env e, loaded)
    by_secret (some secret) e =
        let same : c ≡ with_secret secret env = cc (from_env-with_secret env secret e, loaded) in
        record {
          secret = e ∙ ap (λ d. some d.jwt_secret) (sym same);
          issuer = ap (λ d. d.jwt_issuer) same;
          audience = ap (λ d. d.jwt_audience) same;
        }
