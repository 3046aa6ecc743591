-- ===== src/Examples/Journeys.antt =====
-- Logins one after another, and a login with the refresh that follows.
use rustpress_plugin_authpro.Base.{
  ◌≡◌, refl, List, [], ◌∷◌, str_eq, none, some, find_by, if◌then◌else◌,
}
use rustpress_plugin_authpro.Base.Int.{pos}
use rustpress_plugin_authpro.Text.{hex_u64, base64_url_encode}
use rustpress_plugin_authpro.Error.{ok}
use rustpress_plugin_authpro.Models.{User, is_locked}
use rustpress_plugin_authpro.Models.Roles.{as_str}
use rustpress_plugin_authpro.Models.Claims.{RefreshTokenClaims}
use rustpress_plugin_authpro.Models.Requests.{LoginRequest}
use rustpress_plugin_authpro.Models.Responses.{AuthResponse, TokenResponse}
use rustpress_plugin_authpro.Externals.{Externals}
use rustpress_plugin_authpro.Db.Users.{user_id}
use rustpress_plugin_authpro.Exec.{World}
use rustpress_plugin_authpro.Service.Password.{verify_password}
use rustpress_plugin_authpro.Service.Token.{hash_token}
use rustpress_plugin_authpro.Service.Login.{login}
use rustpress_plugin_authpro.Service.Login.Complete.{LoginReady}
use rustpress_plugin_authpro.Service.Login.Machine.{account, knocks}
use rustpress_plugin_authpro.Service.Login.Runs.{Visit, logins, knocks_of, logins-knocks}
use rustpress_plugin_authpro.Service.Refresh.{refresh_tokens}
use rustpress_plugin_authpro.Service.Refresh.AfterLogin.{Redeemable, login-refresh}
use rustpress_plugin_authpro.Examples.{world_outside, settings, alice, start}

abbrev right : LoginRequest
right = record { email = "alice@example.org"; password = "Aa1" }

-- Two wrong passwords lock the account, and the right one comes too late.
abbrev visits : List Visit
visits =
    record { password = "Bb2"; ip = none; user_agent = none }
    ∷ record { password = "Cc3"; ip = none; user_agent = none }
    ∷ record { password = "Aa1"; ip = none; user_agent = none }
    ∷ []

logins-knocks_example :
    (v : User) × (find_by user_id 1
        (logins world_outside settings "alice@example.org" visits start).db.users
      ≡ some v)
    × (account v
        ≡ knocks
            (pos 2)
            (knocks_of world_outside settings alice "alice@example.org" visits start)
            (account alice))
logins-knocks_example =
    logins-knocks world_outside settings "alice@example.org" visits start alice (λ n. refl) refl
      refl

-- What the first login's refresh token carries.
abbrev issued_claims : RefreshTokenClaims
issued_claims = record { sub = 1; tid = 105; iat = pos 1006; exp = pos 605806; iss = "rustpress" }

abbrev echoing : Externals
echoing = record world_outside {
  decode_refresh = λ secret v now s. if str_eq s "jwt2" then some issued_claims else none;
}

alice_ready : LoginReady echoing settings right none none start alice "access"
unfolding is_locked verify_password hash_token hex_u64 base64_url_encode as_str
alice_ready = record {
  healthy = λ n. refl;
  by_email = refl;
  unlocked = refl;
  is_live = refl;
  right = refl;
  confirmed = refl;
  access_ready = record { exp = 4603; expires = refl; encoded = refl };
  refresh_ready = record {
    exp = 605806;
    jwt = "jwt2";
    healthy = refl;
    expires = refl;
    encoded = refl;
    ip_fits = refl;
    new_id = refl;
    new_hash = refl;
    known = refl;
  };
}

alice_redeems :
    Redeemable echoing settings right none none start alice "access" alice_ready none none "access"
unfolding alice_ready hash_token hex_u64 base64_url_encode as_str
alice_redeems = record {
  by_id = refl;
  decoded = refl;
  in_time = refl;
  access_ready = record { exp = 4614; expires = refl; encoded = refl };
  refresh_ready = record {
    exp = 605817;
    jwt = "jwt2";
    healthy = refl;
    expires = refl;
    encoded = refl;
    ip_fits = refl;
    new_id = refl;
    new_hash = refl;
    known = refl;
  };
}

login-refresh_example :
    (s : AuthResponse) × (v : World) × (r : TokenResponse) × (w' : World) × (login echoing settings
        right none none start
      ≡ (ok s, v))
    × (refresh_tokens echoing settings s.refresh_token none none v ≡ (ok r, w'))
    × (r.access_token ≡ "access")
login-refresh_example =
    login-refresh echoing settings right none none start alice "access" alice_ready none none
      "access" alice_redeems
