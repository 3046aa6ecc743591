-- ===== src/Examples/Forgotten.antt =====
-- A forgotten password, set anew with the token that was sent, and a reset that is interrupted.
use rustpress_plugin_authpro.Base.{◌≡◌, refl, none, some, [], ◌∷◌, ◌==◌, if◌then◌else◌}
use rustpress_plugin_authpro.Text.{hex_u64, base64_url_encode}
use rustpress_plugin_authpro.Error.{ok, err, database}
use rustpress_plugin_authpro.Models.{OneTimeToken}
use rustpress_plugin_authpro.Models.Requests.{ResetPasswordRequest}
use rustpress_plugin_authpro.Externals.{Externals}
use rustpress_plugin_authpro.Db.OneTimeTokens.{is_usable}
use rustpress_plugin_authpro.Db.Changes.{PasswordSet}
use rustpress_plugin_authpro.Service.Reset.Done.{usable_token}
use rustpress_plugin_authpro.Exec.{World}
use rustpress_plugin_authpro.Service.Password.{validate_password, hash_password}
use rustpress_plugin_authpro.Service.Token.{hash_token}
use rustpress_plugin_authpro.Service.Reset.{forgot_password, reset_password}
use rustpress_plugin_authpro.Service.Reset.AfterForgot.{
  ForgotReady, ComesBack, sent, after_forgot, forgot_password-reset_password,
}
use rustpress_plugin_authpro.Service.Reset.Interrupted.{Interrupted, reset_password-interrupted}
use rustpress_plugin_authpro.Examples.{world_outside, settings, checksum, alice, start, tables}

forgot_ready : ForgotReady world_outside settings "alice@example.org" start alice
unfolding hash_token hex_u64 base64_url_encode
forgot_ready = record {
  exp = 4602;
  healthy = λ n. refl;
  by_email = refl;
  expires = refl;
  new_id = refl;
  new_hash = refl;
  known = refl;
}

abbrev request : ResetPasswordRequest
request = record { token = "01"; password = "Aa1"; password_confirm = "Aa1" }

comes_back :
    ComesBack world_outside settings "alice@example.org" start alice forgot_ready request "Aa1salt"
unfolding forgot_ready validate_password hash_password base64_url_encode
comes_back = record { same = refl; in_time = refl; strong = refl; hashed = refl; hash_fits = refl }

forgot_password-reset_password_example :
    (w' : World) × (forgot_password world_outside settings "alice@example.org" start ≡ (
      ok (sent world_outside settings "alice@example.org" start alice),
      after_forgot world_outside settings "alice@example.org" start alice forgot_ready,
    ))
    × (reset_password world_outside settings request
          (after_forgot world_outside settings "alice@example.org" start alice forgot_ready)
        ≡ (ok tt, w'))
forgot_password-reset_password_example =
    forgot_password-reset_password world_outside settings "alice@example.org" start alice
      forgot_ready request "Aa1salt" comes_back

-- The database does not answer the fourth of the calls made outside.
abbrev failing : Externals
failing = record world_outside { db_fault = λ n. if n == 3 then some "connection lost" else none }

abbrev ab_token : OneTimeToken
unfolding hex_u64
ab_token = record {
  id = 9;
  user_id = 1;
  token_hash = hex_u64 (checksum "ab" "");
  expires_at = 5000;
  used_at = none;
  created_at = 900;
}

abbrev asked : World
asked = record start { db = record tables { password_reset_tokens = ab_token ∷ [] } }

abbrev with_ab : ResetPasswordRequest
with_ab = record { token = "ab"; password = "Aa1"; password_confirm = "Aa1" }

interruption : Interrupted failing settings with_ab asked
unfolding validate_password hash_password hash_token hex_u64 is_usable
interruption = record {
  token = ab_token;
  hash = "Aa1salt";
  message = "connection lost";
  strong = refl;
  found = refl;
  hashed = refl;
  hash_fits = refl;
  selects = refl;
  sets = refl;
  breaks = refl;
}

reset_password-interrupted_example :
    (w' : World) × (reset_password failing settings with_ab asked
      ≡ (err (database "connection lost"), w'))
    × PasswordSet 1 "Aa1salt" 1002 asked.db w'.db
    × (usable_token (hash_token failing settings "ab") 1000 w'.db.password_reset_tokens
        ≡ some ab_token)
    × (w'.db ≡ record asked.db { users = w'.db.users })
unfolding interruption ab_token
reset_password-interrupted_example =
    reset_password-interrupted failing settings with_ab asked interruption
