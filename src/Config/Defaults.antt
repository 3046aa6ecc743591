-- ===== src/Config/Defaults.antt =====
-- The defaults of `from_env`.
use Prim.Native.String.{len}
use rustpress_plugin_authpro.Base.{◌≡◌, String, Option, none, some, ltb, false}
use rustpress_plugin_authpro.Error.{ok}
use rustpress_plugin_authpro.Config.{AuthConfig, validate}
use rustpress_plugin_authpro.Config.Env.{with_secret, from_env}

-- The defaults are valid: in an environment with a secret of 32 bytes or more, and without the
-- lifetimes of the tokens and the length of passwords, `from_env` returns a configuration that
-- `validate` accepts, whatever the other variables are.
pub defaults_validate :
    (env : String → Option String) (secret : String)
    → env "JWT_SECRET" ≡ some secret
    → ltb (len secret) 32 ≡ false
    → env "JWT_ACCESS_EXPIRATION" ≡ none
    → env "JWT_REFRESH_EXPIRATION" ≡ none
    → env "MIN_PASSWORD_LENGTH" ≡ none
    → (c : AuthConfig) × (from_env env ≡ ok c) × (validate c ≡ ok tt)
unfolding from_env with_secret validate
defaults_validate env secret given long access refresh length =
    (with_secret secret env, rw (given, from_env), simp (long, access, refresh, length))
