-- ===== src/Models/Requests.antt =====
-- The request types of models.rs.
use rustpress_plugin_authpro.Base.{String}

pub record LoginRequest : Type 0 where
  pub email : String
  pub password : String

pub record RegisterRequest : Type 0 where
  pub email : String
  pub password : String
  pub password_confirm : String
  pub name : String

pub record ResetPasswordRequest : Type 0 where
  pub token : String
  pub password : String
  pub password_confirm : String

pub record ChangePasswordRequest : Type 0 where
  pub current_password : String
  pub new_password : String
  pub new_password_confirm : String

pub record RefreshTokenRequest : Type 0 where
  pub refresh_token : String

pub record ForgotPasswordRequest : Type 0 where
  pub email : String

pub record VerifyEmailRequest : Type 0 where
  pub token : String
