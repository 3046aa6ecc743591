-- ===== src/Config/Validity.antt =====
-- What `validate` accepts.
use Prim.Native.String.{len}
use rustpress_plugin_authpro.Base.{◌≡◌, ltb, false, ◌↔◌, arith}
use rustpress_plugin_authpro.Base.Int.{pos, leb_ℤ}
use rustpress_plugin_authpro.Error.{ok}
use rustpress_plugin_authpro.Config.{AuthConfig, validate}

-- A configuration is accepted if and only if its secret has 32 bytes or more, access tokens live
-- for some seconds, refresh tokens live longer, and passwords have 8 bytes or more.
pub validate-ok :
    (c : AuthConfig)
    → validate c ≡ ok tt
      ↔ (ltb (len c.jwt_secret) 32 ≡ false)
        × (leb_ℤ c.access_token_expiration (pos 0) ≡ false)
        × (leb_ℤ c.refresh_token_expiration c.access_token_expiration ≡ false)
        × (ltb c.min_password_length 8 ≡ false)
unfolding validate
validate-ok c = (λ e. ground arith, λ e. ground arith)
