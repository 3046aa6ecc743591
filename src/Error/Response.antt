-- ===== src/Error/Response.antt =====
-- `impl IntoResponse for AuthError` and the `Display` texts of its variants.
use rustpress_plugin_authpro.Base.{ℕ, String, str_append}
use rustpress_plugin_authpro.Error.{
  AuthError, invalid_credentials, account_locked, account_not_active, email_not_verified,
  invalid_token, token_revoked, user_not_found, email_exists, weak_password, validation, database,
  config, internal,
}

-- The status and the two fields of the JSON body.
pub record ErrorResponse : Type 0 where
  pub status : ℕ
  pub error : String
  pub message : String

-- `#[error("…")]`
unfoldable pub display : AuthError → String
display invalid_credentials = "Invalid credentials"
display account_locked = "Account is locked. Try again later"
display account_not_active = "Account is not active"
display email_not_verified = "Email not verified"
display invalid_token = "Invalid or expired token"
display token_revoked = "Token has been revoked"
display user_not_found = "User not found"
display email_exists = "Email already registered"
display weak_password = "Password does not meet requirements"
display (validation msg) = str_append "Validation error: " msg
display (database msg) = str_append "Database error: " msg
display (config msg) = str_append "Configuration error: " msg
display internal = "Internal error"

abbrev respond : ℕ → String → String → ErrorResponse
respond status error message = record { status = status; error = error; message = message }

unfoldable pub into_response : AuthError → ErrorResponse
unfolding display
into_response invalid_credentials = respond 401 "invalid_credentials" (display invalid_credentials)
into_response account_locked = respond 403 "account_locked" (display account_locked)
into_response account_not_active = respond 403 "account_not_active" (display account_not_active)
into_response email_not_verified = respond 403 "email_not_verified" (display email_not_verified)
into_response invalid_token = respond 401 "invalid_token" (display invalid_token)
into_response token_revoked = respond 401 "invalid_token" (display token_revoked)
into_response user_not_found = respond 404 "user_not_found" (display user_not_found)
into_response email_exists = respond 409 "email_exists" (display email_exists)
into_response weak_password = respond 400 "weak_password" (display weak_password)
into_response (validation msg) = respond 400 "validation_error" msg
into_response (config msg) = respond 500 "configuration_error" msg
into_response (database msg) = respond 500 "internal_error" "An internal error occurred"
into_response internal = respond 500 "internal_error" "An internal error occurred"
