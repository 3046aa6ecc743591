-- ===== src/Handlers.antt =====
-- handlers.rs: the handlers of the routes under /auth. Each checks its request, calls the service
-- and answers with the value that becomes the JSON body. An optional key of a body is an `Option`.
pub mod Validation
pub mod Passed
pub mod Enumeration
use rustpress_plugin_authpro.Base.{ℕ, String, Bool, true, false, Option, none, some, is_some}
use rustpress_plugin_authpro.Text.{is_empty}
use rustpress_plugin_authpro.Models.{Uuid, User}
use rustpress_plugin_authpro.Models.Claims.{AccessTokenClaims}
use rustpress_plugin_authpro.Models.Requests.{
  LoginRequest, RegisterRequest, RefreshTokenRequest, ForgotPasswordRequest, ResetPasswordRequest,
  ChangePasswordRequest, VerifyEmailRequest,
}
use rustpress_plugin_authpro.Models.Responses.{
  UserResponse, from_user, AuthResponse, TokenResponse, MessageResponse,
}
use rustpress_plugin_authpro.Extractors.{AuthUser}
use rustpress_plugin_authpro.Config.{AuthConfig}
use rustpress_plugin_authpro.Externals.{Externals}
use rustpress_plugin_authpro.Error.{ok_or, user_not_found}
use rustpress_plugin_authpro.Exec.{Exec, pure, lift, ◌>>=◌, ◌>>◌}
use rustpress_plugin_authpro.Service.Account as Accounts
use rustpress_plugin_authpro.Service.Login as Logins
use rustpress_plugin_authpro.Service.Refresh as Sessions
use rustpress_plugin_authpro.Service.Reset as Resets
use rustpress_plugin_authpro.Service.Verification as Verifications
use Validation.{
  Validator, validated, login_failures, register_failures, refresh_failures, forgot_failures,
  reset_failures, change_failures, verify_failures,
}

-- The body of a registration, whose status is 201.
pub record RegisterReply : Type 0 where
  pub message : String
  pub user : UserResponse
  pub verification_token : String

pub record ForgotReply : Type 0 where
  pub message : String
  pub reset_token : Option String

pub record VerifyReply : Type 0 where
  pub message : String
  pub user : UserResponse

pub record ResendReply : Type 0 where
  pub message : String
  pub verification_token : Option String

abbrev said : String → MessageResponse
said text = record { message = text }

module _ (x : Externals) (c : AuthConfig) (v : Validator) where
  unfoldable pub register : RegisterRequest → Exec RegisterReply
  register req = do
    validated v (register_failures v req)
    user ← Accounts.register x c req
    token ← Verifications.create_email_verification x c user.id
    pure (record {
      message = "Registration successful. Please verify your email.";
      user = from_user user;
      verification_token = token;
    })

  unfoldable pub login : LoginRequest → Option String → Option String → Exec AuthResponse
  login req ip user_agent = do
    validated v (login_failures v req)
    Logins.login x c req ip user_agent

  -- The request is not validated here.
  unfoldable pub logout : RefreshTokenRequest → Exec MessageResponse
  logout req = do Sessions.logout x c req.refresh_token; pure (said "Logged out successfully")

  unfoldable pub refresh_token :
      RefreshTokenRequest → Option String → Option String → Exec TokenResponse
  refresh_token req ip user_agent = do
    validated v (refresh_failures v req)
    Sessions.refresh_tokens x c req.refresh_token ip user_agent

  -- `if !token.is_empty() { Some(token) } else { None }`
  abbrev pub shown : String → Bool → Option String
  shown token true = none
  shown token false = some token

  unfoldable pub forgot_password : ForgotPasswordRequest → Exec ForgotReply
  forgot_password req = do
    validated v (forgot_failures v req)
    token ← Resets.forgot_password x c req.email
    pure (record {
      message = "If an account with that email exists, a password reset link has been sent.";
      reset_token = shown token (is_empty token);
    })

  unfoldable pub reset_password : ResetPasswordRequest → Exec MessageResponse
  reset_password req = do
    validated v (reset_failures v req)
    Resets.reset_password x c req
    pure (said "Password reset successful. Please login with your new password.")

  unfoldable pub change_password : AuthUser → ChangePasswordRequest → Exec MessageResponse
  change_password user req = do
    validated v (change_failures v req)
    Accounts.change_password x c user.id req
    pure (said "Password changed successfully. Please login again on all devices.")

  unfoldable pub verify_email : VerifyEmailRequest → Exec VerifyReply
  verify_email req = do
    validated v (verify_failures v req)
    user ← Verifications.verify_email x c req.token
    pure (record { message = "Email verified successfully"; user = from_user user })

  -- GET /auth/me, whose body has the four fields under `user`.
  unfoldable pub get_current_user : AuthUser → Exec AuthUser
  get_current_user user = pure user

  -- The rest of `resend_verification`, for a user whose email is verified or not.
  unfoldable pub resend : Uuid → Bool → Exec ResendReply
  resend id true =
      pure (record { message = "Email is already verified"; verification_token = none })
  resend id false = do
    token ← Verifications.create_email_verification x c id
    pure (record { message = "Verification email sent"; verification_token = some token })

  unfoldable pub resend_verification : AuthUser → Exec ResendReply
  resend_verification user = do
    found ← Accounts.get_user x user.id
    full_user ← lift (ok_or found user_not_found)
    resend user.id (is_some full_user.email_verified_at)
