-- ===== src/Service/Password/Verifies.antt =====
-- A password and its own hash.
use rustpress_plugin_authpro.Base.{◌≡◌, String, true, some, arith}
use rustpress_plugin_authpro.Error.{ok}
use rustpress_plugin_authpro.Config.{AuthConfig}
use rustpress_plugin_authpro.Externals.{Externals}
use rustpress_plugin_authpro.Service.Password.{params, hash_with_salt, verify_password}

-- What argon2 documents: the text that it makes of a password parses, and verifies the password.
pub record VerifiesOwn (x : Externals) (c : AuthConfig) : Type 0 where
  pub parses :
      (password salt hash : String)
      → x.argon2_hash (params x c) password salt ≡ some hash
      → x.hash_valid hash ≡ true
  pub verifies :
      (password salt hash : String)
      → x.argon2_hash (params x c) password salt ≡ some hash
      → x.argon2_verify (params x c) password hash ≡ true

pub verify_password-hash_with_salt :
    (x : Externals) (c : AuthConfig) (password salt hash : String)
    → VerifiesOwn x c
    → hash_with_salt x c password salt ≡ ok hash
    → verify_password x c password hash ≡ ok true
unfolding hash_with_salt verify_password
verify_password-hash_with_salt x c password salt hash own e =
    let made : x.argon2_hash (params x c) password salt ≡ some hash = ground arith in
    ground (arith, own.parses password salt hash made, own.verifies password salt hash made)
