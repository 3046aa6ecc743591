-- ===== src/Examples/Races.antt =====
-- Two refreshes at once with the token "jwt.ab".
use rustpress_plugin_authpro.Base.{◌≡◌, refl, none}
use rustpress_plugin_authpro.Text.{hex_u64, base64_url_encode}
use rustpress_plugin_authpro.Text.Split.{rsplit_dot}
use rustpress_plugin_authpro.Error.{ok}
use rustpress_plugin_authpro.Models.{is_valid, can_login}
use rustpress_plugin_authpro.Models.Roles.{as_str}
use rustpress_plugin_authpro.Exec.{World, tick}
use rustpress_plugin_authpro.Service.Token.{hash_token}
use rustpress_plugin_authpro.Service.Refresh.Race.{
  race, PresentReady, RotateReady, rotated_world, rotated_tokens, race-both,
}
use rustpress_plugin_authpro.Examples.{
  world_outside, settings, alice, alice_claims, alice_token, start,
}

abbrev tick_3 : World → World
tick_3 w = tick (tick (tick w))

first_check : PresentReady world_outside settings "jwt.ab" alice_claims start
unfolding rsplit_dot hash_token hex_u64 is_valid
first_check = record {
  token_string = "ab";
  jwt = "jwt";
  stored = alice_token;
  healthy = λ n. refl;
  split = refl;
  decoded = refl;
  found = refl;
  valid = refl;
}

second_check : PresentReady world_outside settings "jwt.ab" alice_claims (tick_3 start)
unfolding rsplit_dot hash_token hex_u64 is_valid
second_check = record {
  token_string = "ab";
  jwt = "jwt";
  stored = alice_token;
  healthy = λ n. refl;
  split = refl;
  decoded = refl;
  found = refl;
  valid = refl;
}

first_rotation :
    RotateReady world_outside settings alice_claims none (tick_3 (tick_3 start)) alice "access"
unfolding can_login hash_token hex_u64 base64_url_encode as_str
first_rotation = record {
  healthy = λ n. refl;
  by_id = refl;
  allowed = refl;
  access_ready = record { exp = 4608; expires = refl; encoded = refl };
  refresh_ready = record {
    exp = 605811;
    jwt = "jwt2";
    healthy = refl;
    expires = refl;
    encoded = refl;
    ip_fits = refl;
    new_id = refl;
    new_hash = refl;
    known = refl;
  };
}

abbrev between : World
unfolding first_rotation
between =
    rotated_world world_outside settings alice_claims none none (tick_3 (tick_3 start)) alice
      "access" first_rotation

second_rotation : RotateReady world_outside settings alice_claims none between alice "access"
unfolding first_rotation can_login hash_token hex_u64 base64_url_encode as_str
second_rotation = record {
  healthy = λ n. refl;
  by_id = refl;
  allowed = refl;
  access_ready = record { exp = 4617; expires = refl; encoded = refl };
  refresh_ready = record {
    exp = 605820;
    jwt = "jwt2";
    healthy = refl;
    expires = refl;
    encoded = refl;
    ip_fits = refl;
    new_id = refl;
    new_hash = refl;
    known = refl;
  };
}

race-both_example : race world_outside settings "jwt.ab" none none none none start ≡ (
  ok (
    rotated_tokens world_outside settings alice_claims none
        (tick_3 (tick_3 start))
        alice
        "access"
        first_rotation,
    rotated_tokens world_outside settings alice_claims none between alice "access" second_rotation,
  ),
  rotated_world world_outside settings alice_claims none none between alice "access"
      second_rotation,
)
unfolding between first_rotation
race-both_example =
    race-both world_outside settings "jwt.ab" none none none none start alice_claims alice "access"
      "access" first_check second_check first_rotation second_rotation
