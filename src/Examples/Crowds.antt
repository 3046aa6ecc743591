-- ===== src/Examples/Crowds.antt =====
-- Logins of a user that are made at once, under a limit of two failures.
use rustpress_plugin_authpro.Base.{refl, none, List, [], ◌∷◌, arith}
use rustpress_plugin_authpro.Models.Requests.{LoginRequest}
use rustpress_plugin_authpro.Service.Password.{verify_password}
use rustpress_plugin_authpro.Service.Login.Race.Opened.{
  RaceOpened, race-opens, recorded_world, counted_world,
}
use rustpress_plugin_authpro.Service.Login.Race.{attend, attend_each}
use rustpress_plugin_authpro.Service.Login.{check_password}
use rustpress_plugin_authpro.Service.Account.{increment_failed_attempts}
use rustpress_plugin_authpro.Service.Token.{hash_token}
use rustpress_plugin_authpro.Service.Token.Issues.{AccessReady, RefreshReady}
use rustpress_plugin_authpro.Text.{hex_u64, base64_url_encode}
use rustpress_plugin_authpro.Models.Roles.{as_str}
use rustpress_plugin_authpro.Db.Users.{record_failure, count_failure, reaches_limit}
use rustpress_plugin_authpro.Exec.{tick, ◌>>=◌}
use rustpress_plugin_authpro.Examples.{world_outside, settings, alice, start}

abbrev guess : LoginRequest
guess = record { email = "alice@example.org"; password = "Bb2" }

abbrev known : LoginRequest
known = record { email = "alice@example.org"; password = "Aa1" }

abbrev crowd : List LoginRequest
crowd = guess ∷ (guess ∷ (guess ∷ []))

crowd_access :
    AccessReady world_outside settings alice
      (recorded_world world_outside settings none none alice
        (counted_world world_outside settings none none alice crowd start))
      "access"
unfolding verify_password attend_each attend check_password increment_failed_attempts record_failure
    count_failure reaches_limit as_str ◌>>=◌
crowd_access = record { exp = 4612; expires = refl; encoded = refl }

crowd_refresh : RefreshReady world_outside settings 1 none (
    tick (
      tick (
        recorded_world world_outside settings none none alice
          (counted_world world_outside settings none none alice crowd start))))
unfolding verify_password attend_each attend check_password increment_failed_attempts record_failure
    count_failure reaches_limit hash_token hex_u64 base64_url_encode ◌>>=◌
crowd_refresh = record {
  exp = 605815;
  jwt = "jwt2";
  healthy = refl;
  expires = refl;
  encoded = refl;
  ip_fits = refl;
  new_id = refl;
  new_hash = refl;
  known = refl;
}

-- Three guesses, where the limit is two.
race-opens_example : RaceOpened world_outside settings none none alice known crowd start 3 "access"
unfolding verify_password
race-opens_example =
    race-opens world_outside settings none none alice guess (guess ∷ (guess ∷ [])) known start 0 2
      "access"
      (record { healthy = λ n. refl; no_lock = refl; is_live = refl; lockable = λ now. refl })
      (refl, refl, (refl, refl, (refl, refl, tt))) refl refl refl refl refl refl (omega arith)
      (omega arith) crowd_access crowd_refresh
