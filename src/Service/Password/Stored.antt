-- ===== src/Service/Password/Stored.antt =====
-- What a stored hash is the hash of.
use rustpress_plugin_authpro.Base.{◌≡◌, String}
use rustpress_plugin_authpro.Error.{ok}
use rustpress_plugin_authpro.Config.{AuthConfig}
use rustpress_plugin_authpro.Externals.{Externals}
use rustpress_plugin_authpro.Service.Password.{hash_with_salt, validate_password}

-- Argon2 made it of a password that meets the policy.
abbrev pub OfStrong : Externals → AuthConfig → String → Type 0
OfStrong x c hash =
    (password : String) × (salt : String) × (validate_password x c password ≡ ok tt)
    × (hash_with_salt x c password salt ≡ ok hash)
