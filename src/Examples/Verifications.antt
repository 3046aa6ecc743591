-- ===== src/Examples/Verifications.antt =====
-- An email that is verified with the token that was sent.
use rustpress_plugin_authpro.Base.{◌≡◌, refl, true, some, find_by}
use rustpress_plugin_authpro.Text.{hex_u64, base64_url_encode}
use rustpress_plugin_authpro.Error.{ok}
use rustpress_plugin_authpro.Models.{is_active, is_email_verified}
use rustpress_plugin_authpro.Db.Users.{user_id, verified}
use rustpress_plugin_authpro.Exec.{World}
use rustpress_plugin_authpro.Service.Token.{hash_token}
use rustpress_plugin_authpro.Service.Verification.{create_email_verification, verify_email}
use rustpress_plugin_authpro.Service.Verification.AfterAsk.{
  AskReady, sent, after_ask, create_email_verification-verify_email,
}
use rustpress_plugin_authpro.Examples.{world_outside, settings, alice, start}

ask_ready : AskReady world_outside settings start alice
unfolding hash_token hex_u64 base64_url_encode
ask_ready = record {
  exp = 87401;
  healthy = λ n. refl;
  known = refl;
  expires = refl;
  new_id = refl;
  new_hash = refl;
}

create_email_verification-verify_email_example :
    (w' : World) × (create_email_verification world_outside settings 1 start ≡ (
      ok (sent world_outside settings start alice),
      after_ask world_outside settings start alice ask_ready,
    ))
    × (verify_email world_outside settings
          (sent world_outside settings start alice)
          (after_ask world_outside settings start alice ask_ready)
        ≡ (ok (verified 1006 alice), w'))
    × (find_by user_id 1 w'.db.users ≡ some (verified 1006 alice))
    × (is_email_verified (verified 1006 alice) ≡ true)
    × (is_active (verified 1006 alice).status ≡ true)
unfolding ask_ready
create_email_verification-verify_email_example =
    create_email_verification-verify_email world_outside settings start alice ask_ready refl
