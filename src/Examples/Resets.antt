-- ===== src/Examples/Resets.antt =====
-- Password resets with the token "ab".
use rustpress_plugin_authpro.Base.{◌≡◌, refl, String, none, some, [], ◌∷◌, find_by}
use rustpress_plugin_authpro.Text.{hex_u64}
use rustpress_plugin_authpro.Error.{ok}
use rustpress_plugin_authpro.Models.{OneTimeToken}
use rustpress_plugin_authpro.Models.Requests.{ResetPasswordRequest}
use rustpress_plugin_authpro.Db.Users.{user_id, set_password}
use rustpress_plugin_authpro.Db.RefreshTokens.{revoke_user_tokens}
use rustpress_plugin_authpro.Db.OneTimeTokens.{is_usable, select_token, use_token}
use rustpress_plugin_authpro.Exec.{World, ◌>>=◌}
use rustpress_plugin_authpro.Exec.Inversion.{Returns}
use rustpress_plugin_authpro.Service.Password.{hash_with_salt, hash_password, validate_password}
use rustpress_plugin_authpro.Service.Token.{hash_token}
use rustpress_plugin_authpro.Service.Account.{revoke_all_tokens}
use rustpress_plugin_authpro.Service.Reset.{reset_password}
use rustpress_plugin_authpro.Service.Reset.Done.{usable_token, ResetEffects, reset_ends_sessions}
use rustpress_plugin_authpro.Service.Reset.Complete.{ResetReady, reset_sets_password}
use rustpress_plugin_authpro.Service.Reset.Race.{BothReady, reset_both, reset_both-succeeds}
use rustpress_plugin_authpro.Service.Verification.{verify_email}
use rustpress_plugin_authpro.Service.Verification.Activation.{verification_activates}
use rustpress_plugin_authpro.Models.{User, suspended, active}
use rustpress_plugin_authpro.Db.Changes.{EmailVerified, TokenUsed}
use rustpress_plugin_authpro.Db.OneTimeTokens.{email_verification}
use rustpress_plugin_authpro.Examples.{world_outside, settings, alice, checksum, start, tables}

abbrev request : ResetPasswordRequest
request = record { token = "ab"; password = "Aa1"; password_confirm = "Aa1" }

abbrev reset_token : OneTimeToken
unfolding hex_u64
reset_token = record {
  id = 9;
  user_id = 1;
  token_hash = hex_u64 (checksum "ab" "");
  expires_at = 5000;
  used_at = none;
  created_at = 900;
}

abbrev asked : World
asked = record start { db = record tables { password_reset_tokens = reset_token ∷ [] } }

abbrev after_reset : World
after_reset = (reset_password world_outside settings request asked).1

reset_run : Returns (reset_password world_outside settings request) asked tt after_reset
unfolding reset_password validate_password hash_password hash_token hex_u64 select_token is_usable
    set_password use_token revoke_all_tokens revoke_user_tokens ◌>>=◌
reset_run = refl

reset_ends_sessions_example :
    (t : OneTimeToken) × (h : String) × (usable_token
        (hash_token world_outside settings "ab")
        1000
        asked.db.password_reset_tokens
      ≡ some t)
    × (hash_with_salt world_outside settings "Aa1" "salt" ≡ ok h)
    × ResetEffects world_outside settings t h asked after_reset
reset_ends_sessions_example =
    reset_ends_sessions world_outside settings request asked after_reset reset_run

reset_ready : ResetReady world_outside settings request asked
unfolding validate_password hash_password hash_token hex_u64 is_usable
reset_ready = record {
  token = reset_token;
  hash = "Aa1salt";
  healthy = λ n. refl;
  strong = refl;
  found = refl;
  hashed = refl;
  hash_fits = refl;
}

reset_sets_password_example :
    (w' : World) × (reset_password world_outside settings request asked ≡ (ok tt, w'))
    × ResetEffects world_outside settings reset_token "Aa1salt" asked w'
unfolding reset_ready
reset_sets_password_example = reset_sets_password world_outside settings request asked reset_ready

abbrev rival : ResetPasswordRequest
rival = record { token = "ab"; password = "A1a"; password_confirm = "A1a" }

abbrev both_ready :
    BothReady world_outside settings request rival reset_token alice "Aa1salt" "A1asalt" asked
unfolding validate_password hash_password hash_token hex_u64 is_usable
both_ready = record {
  healthy = λ n. refl;
  same_token = refl;
  strong = refl;
  strong' = refl;
  found = refl;
  found' = refl;
  user = refl;
  hashed = refl;
  hashed' = refl;
  fits_column = refl;
  fits_column' = refl;
}

reset_both-succeeds_example :
    (w' : World) × (v : User) × (reset_both world_outside settings request rival asked
      ≡ (ok tt, w'))
    × (find_by user_id 1 w'.db.users ≡ some v)
    × (v.password_hash ≡ "A1asalt")
unfolding reset_token
reset_both-succeeds_example =
    reset_both-succeeds world_outside settings request rival reset_token alice "Aa1salt" "A1asalt"
      asked both_ready

abbrev suspended_alice : User
suspended_alice = record alice { status = suspended }

-- A suspended user, and a verification token sent before.
abbrev invited : World
invited = record start {
  db = record tables { users = suspended_alice ∷ []; email_verification_tokens = reset_token ∷ [] };
}

verification_activates_example :
    (v : User) × (w' : World) × (verify_email world_outside settings "ab" invited ≡ (ok v, w'))
    × (v.status ≡ active)
    × (v.email_verified_at ≡ some 1001)
    × EmailVerified 1 1001 invited.db w'.db
    × TokenUsed email_verification 9 1002 invited.db w'.db
    × (w'.db.refresh_tokens ≡ invited.db.refresh_tokens)
    × (w'.db.password_reset_tokens ≡ invited.db.password_reset_tokens)
unfolding hash_token hex_u64 is_usable reset_token
verification_activates_example =
    verification_activates world_outside settings "ab" invited reset_token suspended_alice
      (λ n. refl) refl refl
