-- ===== src/Models/Claims.antt =====
-- The JWT claims of models.rs. Times are Unix seconds, i64.
use rustpress_plugin_authpro.Base.{ℕ, String}
use rustpress_plugin_authpro.Base.Int.{ℤ}

pub record AccessTokenClaims : Type 0 where
  pub sub : ℕ
  pub email : String
  pub name : String
  pub role : String
  pub iat : ℤ
  pub exp : ℤ
  pub iss : String
  pub aud : String
  pub jti : ℕ

pub record RefreshTokenClaims : Type 0 where
  pub sub : ℕ
  pub tid : ℕ
  pub iat : ℤ
  pub exp : ℤ
  pub iss : String
