-- ===== src/Examples/Traffic.antt =====
-- Requests one after another: a refresh, a reset, and others.
use rustpress_plugin_authpro.Base.{
  ◌≡◌, refl, true, str_eq, String, Option, none, some, List, [], ◌∷◌, if◌then◌else◌,
}
use rustpress_plugin_authpro.Base.Int.{pos}
use rustpress_plugin_authpro.Text.{hex_u64, base64_url_encode}
use rustpress_plugin_authpro.Text.Split.{rsplit_dot}
use rustpress_plugin_authpro.Error.{ok}
use rustpress_plugin_authpro.Models.{is_valid, can_login, OneTimeToken}
use rustpress_plugin_authpro.Models.Roles.{as_str}
use rustpress_plugin_authpro.Models.Requests.{RefreshTokenRequest, ResetPasswordRequest}
use rustpress_plugin_authpro.Models.Responses.{TokenResponse, MessageResponse}
use rustpress_plugin_authpro.Db.Users.{select_user, set_password}
use rustpress_plugin_authpro.Db.RefreshTokens.{
  select_refresh_token, insert_refresh_token, revoke_token, revoke_user_tokens,
}
use rustpress_plugin_authpro.Db.OneTimeTokens.{is_usable, select_token, use_token}
use rustpress_plugin_authpro.Exec.{World, pure, ◌>>=◌}
use rustpress_plugin_authpro.Service.Password.{hash_with_salt, hash_password, validate_password}
use rustpress_plugin_authpro.Service.Token.{
  hash_token, decode_refresh_token, generate_access_token, generate_refresh_token,
}
use rustpress_plugin_authpro.Service.Account.{find_user, revoke_all_tokens}
use rustpress_plugin_authpro.Service.Refresh.{refresh_tokens, check_stored, rotate}
use rustpress_plugin_authpro.Service.Reset.{reset_password}
use rustpress_plugin_authpro.Handlers as Handlers
use rustpress_plugin_authpro.Handlers.Validation.{
  Validator, validated, refresh_failures, reset_failures, check,
}
use rustpress_plugin_authpro.Extractors.{client_info}
use rustpress_plugin_authpro.RateLimit.Answers.{unlimited}
use rustpress_plugin_authpro.Router.Serve.{
  logs_in, refreshes, resets_password, logs_out, asks_me, tokens, message, respond, handle_limited,
  serve_limited,
}
use rustpress_plugin_authpro.Router.Traffic.{
  Incoming, limited, public_unlimited, protected, serve, serve_all,
}
use rustpress_plugin_authpro.Router.Traffic.Once.{serve-refresh_once, serve-reset_once}
use rustpress_plugin_authpro.Router.Traffic.Kept.{serve_all-keeps}
use rustpress_plugin_authpro.Safety.Kept.{Kept}
use rustpress_plugin_authpro.Examples.{world_outside, settings, checksum, start, tables}
use rustpress_plugin_authpro.Examples.Keys.{start-IsSound}

abbrev validator : Validator
validator = record { valid_email = λ s. true; describe = λ failures. "invalid" }

abbrev environment : String → Option String
environment name =
    if str_eq name "JWT_SECRET" then some "an-example-secret-of-32-characters" else none

abbrev no_headers : String → Option String
no_headers name = none

abbrev others : List Incoming
others =
    limited none no_headers (logs_in (record { email = "alice@example.org"; password = "Aa1" }))
    ∷ public_unlimited (logs_out (record { refresh_token = "jwt.ab" }))
    ∷ protected no_headers asks_me
    ∷ []

abbrev refresh : RefreshTokenRequest
refresh = record { refresh_token = "jwt.ab" }

abbrev refreshed : TokenResponse
refreshed = record {
  access_token = "access";
  refresh_token = "jwt2.09";
  token_type = "Bearer";
  expires_in = pos 3600;
}

abbrev after_refresh : World
after_refresh =
    (serve world_outside settings validator environment unlimited
      (limited none no_headers (refreshes refresh)) start).1

serve-refresh_once_example : ¬ (
    serve world_outside settings validator environment unlimited
      (limited none no_headers (refreshes refresh))
      (serve_all world_outside settings validator environment unlimited others after_refresh)
    ≡ (ok (tokens refreshed), start))
unfolding serve serve_limited client_info handle_limited respond Handlers.refresh_token validated
    refresh_failures check pure refresh_tokens decode_refresh_token select_refresh_token
    check_stored rotate rsplit_dot hash_token hex_u64 is_valid find_user select_user can_login
    generate_access_token as_str generate_refresh_token base64_url_encode insert_refresh_token
    revoke_token ◌>>=◌
serve-refresh_once_example =
    serve-refresh_once world_outside settings validator environment unlimited
      (λ jwt now later a b e e'. cc (e, e')) refresh refresh no_headers no_headers none none start
      after_refresh start refreshed refreshed refl refl others

abbrev reset : ResetPasswordRequest
reset = record { token = "ab"; password = "Aa1Aa1Aa1"; password_confirm = "Aa1Aa1Aa1" }

abbrev reset_token : OneTimeToken
unfolding hex_u64
reset_token = record {
  id = 9;
  user_id = 1;
  token_hash = hex_u64 (checksum "ab" "");
  expires_at = 5000;
  used_at = none;
  created_at = 900;
}

abbrev asked : World
asked = record start { db = record tables { password_reset_tokens = reset_token ∷ [] } }

abbrev done : MessageResponse
done = record { message = "Password reset successful. Please login with your new password." }

abbrev after_reset : World
after_reset =
    (serve world_outside settings validator environment unlimited
      (limited none no_headers (resets_password reset)) asked).1

serve-reset_once_example : ¬ (
    serve world_outside settings validator environment unlimited
      (limited none no_headers (resets_password reset))
      (serve_all world_outside settings validator environment unlimited others after_reset)
    ≡ (ok (message done), start))
unfolding serve serve_limited client_info handle_limited respond Handlers.reset_password validated
    reset_failures check pure reset_password validate_password hash_password hash_with_salt
    hash_token hex_u64 select_token is_usable set_password use_token revoke_all_tokens
    revoke_user_tokens ◌>>=◌
serve-reset_once_example =
    serve-reset_once world_outside settings validator environment unlimited reset reset no_headers
      no_headers none none asked after_reset start done done refl refl refl others

serve_all-keeps_example :
    Kept world_outside settings start.db
      (serve_all world_outside settings validator environment unlimited others start).db
serve_all-keeps_example =
    serve_all-keeps world_outside settings validator environment unlimited others start
      start-IsSound
