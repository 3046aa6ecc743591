-- ===== src/Handlers/Validation.antt =====
-- The `#[validate(…)]` attributes of the requests of models.rs. The crate `validator` is a parameter:
-- its test of an email, and how it prints the errors that `validate` collects.
use Prim.Native.String.{count}
use rustpress_plugin_authpro.Base.{
  ℕ, String, str_eq, Bool, ◌&&◌, List, [], ◌∷◌, ◌++◌, leb, if◌then◌else◌,
}
use rustpress_plugin_authpro.Error.{err, validation}
use rustpress_plugin_authpro.Exec.{Exec, pure, lift}
use rustpress_plugin_authpro.Models.Requests.{
  LoginRequest, RegisterRequest, RefreshTokenRequest, ForgotPasswordRequest, ResetPasswordRequest,
  ChangePasswordRequest, VerifyEmailRequest,
}

-- A field and its message.
pub record Failure : Type 0 where
  pub field : String
  pub message : String

pub record Validator : Type 0 where
  pub valid_email : String → Bool
  pub describe : List Failure → String

unfoldable pub check : Bool → String → String → List Failure
check ok field message = if ok then [] else record { field = field; message = message } ∷ []

-- `length(min = n)`, which counts characters.
abbrev pub at_least : ℕ → String → Bool
at_least n s = leb n (count s)

-- `req.validate().map_err(|e| AuthError::Validation(e.to_string()))?`
unfoldable pub validated : Validator → List Failure → Exec (Unit {0})
validated v [] = pure tt
validated v (f ∷ fs) = lift (err (validation (v.describe (f ∷ fs))))

module _ (v : Validator) where
  unfoldable pub login_failures : LoginRequest → List Failure
  login_failures req =
      check (v.valid_email req.email) "email" "Invalid email format"
      ++ check (at_least 1 req.password) "password" "Password is required"

  unfoldable pub register_failures : RegisterRequest → List Failure
  register_failures req =
      check (v.valid_email req.email) "email" "Invalid email format"
      ++ check (at_least 8 req.password) "password" "Password must be at least 8 characters"
      ++ check (str_eq req.password_confirm req.password) "password_confirm"
          "Passwords do not match"
      ++ check (at_least 1 req.name && leb (count req.name) 100) "name"
          "Name must be 1-100 characters"

  unfoldable pub refresh_failures : RefreshTokenRequest → List Failure
  refresh_failures req =
      check (at_least 1 req.refresh_token) "refresh_token" "Refresh token is required"

  unfoldable pub forgot_failures : ForgotPasswordRequest → List Failure
  forgot_failures req = check (v.valid_email req.email) "email" "Invalid email format"

  unfoldable pub reset_failures : ResetPasswordRequest → List Failure
  reset_failures req =
      check (at_least 1 req.token) "token" "Token is required"
      ++ check (at_least 8 req.password) "password" "Password must be at least 8 characters"
      ++ check (str_eq req.password_confirm req.password) "password_confirm"
          "Passwords do not match"

  unfoldable pub change_failures : ChangePasswordRequest → List Failure
  change_failures req =
      check (at_least 1 req.current_password) "current_password" "Current password is required"
      ++ check (at_least 8 req.new_password) "new_password"
          "New password must be at least 8 characters"
      ++ check (str_eq req.new_password_confirm req.new_password) "new_password_confirm"
          "Passwords do not match"

  unfoldable pub verify_failures : VerifyEmailRequest → List Failure
  verify_failures req = check (at_least 1 req.token) "token" "Token is required"
