-- ===== src/Examples/Lockouts.antt =====
-- Logins of a user with the right and with wrong passwords, under a limit of two failures.
use rustpress_plugin_authpro.Base.{◌≡◌, refl, none, some, List, [], ◌∷◌, ◌++◌, arith}
use rustpress_plugin_authpro.Base.Int.{pos}
use rustpress_plugin_authpro.Text.{hex_u64, base64_url_encode}
use rustpress_plugin_authpro.Error.{err, ok, account_locked}
use rustpress_plugin_authpro.Models.{User, RefreshToken, is_locked}
use rustpress_plugin_authpro.Db.Changes.{LoginRecorded}
use rustpress_plugin_authpro.Models.Roles.{as_str}
use rustpress_plugin_authpro.Models.Requests.{LoginRequest}
use rustpress_plugin_authpro.Models.Responses.{AuthResponse, from_user}
use rustpress_plugin_authpro.Db.Users.{select_user_by_email, record_success}
use rustpress_plugin_authpro.Db.RefreshTokens.{insert_refresh_token}
use rustpress_plugin_authpro.Exec.{World, tick, ◌>>=◌}
use rustpress_plugin_authpro.Service.Password.{verify_password}
use rustpress_plugin_authpro.Service.Token.{
  hash_token, generate_access_token, generate_refresh_token,
}
use rustpress_plugin_authpro.Service.Account.{record_successful_login}
use rustpress_plugin_authpro.Service.Login.{login, login_as, check_password, open_session}
use rustpress_plugin_authpro.Service.Login.Lockout.{with_email, relock}
use rustpress_plugin_authpro.Service.Login.Guessing.{Guess, attempts, Guessing, lockout_holds}
use rustpress_plugin_authpro.Service.Login.Success.{Admitted, login-Returns}
use rustpress_plugin_authpro.Service.Login.Complete.{LoginReady, SessionStored, login_opens}
use rustpress_plugin_authpro.Examples.{world_outside, settings, alice, start, tables}

abbrev right : LoginRequest
right = record { email = "alice@example.org"; password = "Aa1" }

abbrev wrong : LoginRequest
wrong = record { email = "alice@example.org"; password = "Bb2" }

-- The server's tables with another row for the user.
abbrev with_row : User → World
with_row u = record start { db = record tables { users = u ∷ [] } }

abbrev locked_alice : User
locked_alice = record alice { locked_until = some 9000; failed_login_attempts = pos 2 }

-- The lock has run out.
abbrev released_alice : User
released_alice = record alice { locked_until = some 500; failed_login_attempts = pos 2 }

relock_example :
    (v : User) × (with_email wrong.email
        (login world_outside settings wrong none none (with_row released_alice)).1.db
      ≡ some v)
    × (v.locked_until ≡ some 1902)
    × (v.failed_login_attempts ≡ pos 3)
unfolding is_locked verify_password
relock_example =
    relock world_outside settings wrong none none (with_row released_alice) released_alice 2 2
      (record {
        healthy = λ n. refl;
        by_email = refl;
        by_id = refl;
        unlocked = refl;
        is_live = refl;
        wrong = refl;
        countable = refl;
        lockable = λ now. refl;
      })
      refl refl (omega arith)

-- The lock has run out, and the count was cleared.
abbrev freed_alice : User
freed_alice = record alice { locked_until = some 500 }

Guessing-alice :
    Guessing world_outside settings "alice@example.org" "Aa1salt" (with_row freed_alice) freed_alice
unfolding is_locked
Guessing-alice = record {
  healthy = λ n. refl;
  by_email = refl;
  by_id = refl;
  same_hash = refl;
  unlocked = λ n later. ground arith;
  is_live = refl;
  lockable = λ now. refl;
}

abbrev wronger : LoginRequest
wronger = record { email = "alice@example.org"; password = "Cc3" }

abbrev guesses : List Guess
guesses =
    record { request = wrong; ip = none; agent = none }
    ∷ record { request = wronger; ip = some "::1"; agent = some "curl" }
    ∷ []

lockout_holds_example :
    (login world_outside settings right none none
      (attempts world_outside settings guesses (with_row freed_alice))).0
    ≡ err account_locked
unfolding verify_password
lockout_holds_example =
    lockout_holds world_outside settings "alice@example.org" "Aa1salt"
      (record { request = wrong; ip = none; agent = none })
      (record { request = wronger; ip = some "::1"; agent = some "curl" } ∷ [])
      (with_row freed_alice) freed_alice 0 2 Guessing-alice (refl, refl, (refl, refl, tt)) refl refl
      refl (omega arith) 1905 right none none refl refl (omega arith)

abbrev logged_on : AuthResponse
unfolding from_user
logged_on = record {
  user = from_user alice;
  access_token = "access";
  refresh_token = "jwt2.07";
  token_type = "Bearer";
  expires_in = pos 3600;
}

abbrev after_login : World
after_login = (login world_outside settings right none none start).1

login-Returns_example :
    (u : User) × (with_email right.email tables ≡ some u)
    × Admitted world_outside settings right none none u (tick start) logged_on after_login
unfolding login login_as check_password open_session select_user_by_email is_locked verify_password
    record_successful_login record_success generate_access_token generate_refresh_token as_str
    hash_token hex_u64 base64_url_encode insert_refresh_token from_user ◌>>=◌
login-Returns_example =
    login-Returns world_outside settings right none none start after_login logged_on refl

alice_ready : LoginReady world_outside settings right none none start alice "access"
unfolding is_locked verify_password hash_token hex_u64 base64_url_encode as_str
alice_ready = record {
  healthy = λ n. refl;
  by_email = refl;
  unlocked = refl;
  is_live = refl;
  right = refl;
  confirmed = refl;
  access_ready = record { exp = 4603; expires = refl; encoded = refl };
  refresh_ready = record {
    exp = 605806;
    jwt = "jwt2";
    healthy = refl;
    expires = refl;
    encoded = refl;
    ip_fits = refl;
    new_id = refl;
    new_hash = refl;
    known = refl;
  };
}

login_opens_example :
    (r : AuthResponse) × (w' : World) × (t : RefreshToken) × (login world_outside settings right
        none none start
      ≡ (ok r, w'))
    × (r.access_token ≡ "access")
    × (r.user ≡ from_user alice)
    × SessionStored world_outside settings right none none start alice "access" alice_ready r t
    × LoginRecorded 1 none 1002 start.db w'.db
    × (w'.db ≡ record start.db {
      users = w'.db.users;
      refresh_tokens = start.db.refresh_tokens ++ t ∷ [];
    })
login_opens_example =
    login_opens world_outside settings right none none start alice "access" alice_ready
