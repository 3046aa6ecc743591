-- ===== src/Examples/Passwords.antt =====
-- A registration and a reset, and the logins after them.
use rustpress_plugin_authpro.Base.{◌≡◌, refl, str_eq, eq_refl, none, some, [], ◌∷◌}
use rustpress_plugin_authpro.Text.{hex_u64, base64_url_encode}
use rustpress_plugin_authpro.Error.{ok, err, database}
use rustpress_plugin_authpro.Models.{User, OneTimeToken, is_locked}
use rustpress_plugin_authpro.Models.Roles.{as_str}
use rustpress_plugin_authpro.Models.Requests.{RegisterRequest, ResetPasswordRequest}
use rustpress_plugin_authpro.Models.Responses.{AuthResponse, from_user}
use rustpress_plugin_authpro.Externals.{Externals}
use rustpress_plugin_authpro.Db.Users.{new_user, select_user_by_email, insert_user}
use rustpress_plugin_authpro.Db.OneTimeTokens.{is_usable}
use rustpress_plugin_authpro.Exec.{World, tick, ◌>>=◌}
use rustpress_plugin_authpro.Service.Password.{hash_with_salt, hash_password, validate_password}
use rustpress_plugin_authpro.Service.Password.Verifies.{VerifiesOwn}
use rustpress_plugin_authpro.Service.Token.{hash_token}
use rustpress_plugin_authpro.Service.Account.{register}
use rustpress_plugin_authpro.Service.Account.FirstLogin.{own_login, FirstReady, register-login}
use rustpress_plugin_authpro.Service.Account.Race.{
  StoreReady, stored_world, register_both, register_both-second,
}
use rustpress_plugin_authpro.Service.Login.{login}
use rustpress_plugin_authpro.Service.Reset.{reset_password}
use rustpress_plugin_authpro.Service.Reset.Complete.{ResetReady, reset_world}
use rustpress_plugin_authpro.Service.Reset.NewPassword.{
  new_login, ReturnsWith, reset_password-login,
}
use rustpress_plugin_authpro.Examples.{world_outside, settings, alice, checksum, start, tables}

-- A hash function that ignores its salt.
abbrev unsalted : Externals
unsalted = record world_outside {
  argon2_hash = λ p password salt. some password;
  argon2_verify = λ p password hash. str_eq password hash;
}

own_hashes : VerifiesOwn unsalted settings
own_hashes = record {
  parses = λ password salt hash e. refl;
  verifies = λ password salt hash e. let same : password ≡ hash = cc in rw same (eq_refl hash);
}

abbrev bob_request : RegisterRequest
bob_request = record {
  email = "bob@example.org";
  password = "Aa1";
  password_confirm = "Aa1";
  name = "Bob";
}

abbrev bob : User
bob = new_user 102 "bob@example.org" "Aa1" "Bob" 1003

abbrev with_bob : World
with_bob = record { db = record tables { users = alice ∷ bob ∷ [] }; step = 4 }

bob_ready : FirstReady unsalted settings bob_request start with_bob bob none none "access"
unfolding hash_token hex_u64 base64_url_encode as_str
bob_ready = record {
  healthy = λ n. refl;
  own = own_hashes;
  undemanding = refl;
  access_ready = record { exp = 4607; expires = refl; encoded = refl };
  refresh_ready = record {
    exp = 605810;
    jwt = "jwt2";
    healthy = refl;
    expires = refl;
    encoded = refl;
    ip_fits = refl;
    new_id = refl;
    new_hash = refl;
    known = refl;
  };
}

register-login_example :
    (r : AuthResponse) × (w : World) × (login unsalted settings
        (own_login bob_request)
        none
        none
        with_bob
      ≡ (ok r, w))
    × (r.user ≡ from_user bob)
unfolding register validate_password hash_password hash_with_salt select_user_by_email insert_user
    ◌>>=◌
register-login_example =
    register-login unsalted settings bob_request start with_bob bob none none "access" refl
      bob_ready

abbrev namesake : RegisterRequest
namesake = record bob_request { name = "Robert" }

bob_stores : StoreReady unsalted settings bob_request "Aa1" (tick (tick start))
unfolding hash_with_salt
bob_stores = record {
  hashed = refl;
  email_fits = refl;
  hash_fits = refl;
  name_fits = refl;
  new_id = refl;
}

namesake_ready :
    StoreReady unsalted settings namesake "Aa1"
      (stored_world unsalted settings bob_request "Aa1" (tick (tick start)))
unfolding hash_with_salt
namesake_ready = record {
  hashed = refl;
  email_fits = refl;
  hash_fits = refl;
  name_fits = refl;
  new_id = refl;
}

register_both-second_example : register_both unsalted settings bob_request namesake start ≡ (
  err (database "duplicate key value: users_email_key"),
  record {
    db = record tables { users = alice ∷ new_user 103 "bob@example.org" "Aa1" "Bob" 1004 ∷ [] };
    step = 8;
  },
)
unfolding validate_password
register_both-second_example =
    register_both-second unsalted settings bob_request namesake "Aa1" "Aa1" start refl (λ n. refl)
      refl refl refl bob_stores namesake_ready

abbrev request : ResetPasswordRequest
request = record { token = "ab"; password = "Aaa1"; password_confirm = "Aaa1" }

abbrev reset_token : OneTimeToken
unfolding hex_u64
reset_token = record {
  id = 9;
  user_id = 1;
  token_hash = hex_u64 (checksum "ab" "");
  expires_at = 5000;
  used_at = none;
  created_at = 900;
}

abbrev asked : World
asked = record start { db = record tables { password_reset_tokens = reset_token ∷ [] } }

reset_ready : ResetReady unsalted settings request asked
unfolding validate_password hash_with_salt hash_token hex_u64 is_usable
reset_ready = record {
  token = reset_token;
  hash = "Aaa1";
  healthy = λ n. refl;
  strong = refl;
  found = refl;
  hashed = refl;
  hash_fits = refl;
}

alice_returns : ReturnsWith unsalted settings request asked reset_ready alice none none "access"
unfolding reset_ready is_locked hash_token hex_u64 base64_url_encode as_str
alice_returns = record {
  own = own_hashes;
  by_email = refl;
  owner = refl;
  unlocked = refl;
  is_live = refl;
  confirmed = refl;
  access_ready = record { exp = 4608; expires = refl; encoded = refl };
  refresh_ready = record {
    exp = 605811;
    jwt = "jwt2";
    healthy = refl;
    expires = refl;
    encoded = refl;
    ip_fits = refl;
    new_id = refl;
    new_hash = refl;
    known = refl;
  };
}

reset_password-login_example :
    (reset_password unsalted settings request asked
      ≡ (ok tt, reset_world unsalted settings request asked reset_ready))
    × ((r : AuthResponse) × (w : World) × (login unsalted settings
            (new_login unsalted settings request asked reset_ready alice none none "access")
            none
            none
            (reset_world unsalted settings request asked reset_ready)
          ≡ (ok r, w))
        × (r.user ≡ from_user alice))
reset_password-login_example =
    reset_password-login unsalted settings request asked reset_ready alice none none "access"
      alice_returns
