-- ===== src/Service/Login/SamePerson.antt =====
-- What a login leaves of a row: the parts that it reads and does not write.
use rustpress_plugin_authpro.Base.{◌≡◌, refl, String, Option}
use rustpress_plugin_authpro.Models.{Instant, User}
use rustpress_plugin_authpro.Models.Requests.{LoginRequest}
use rustpress_plugin_authpro.Config.{AuthConfig}
use rustpress_plugin_authpro.Externals.{Externals}
use rustpress_plugin_authpro.Db.Users.{logged_in, count_failure}
use rustpress_plugin_authpro.Exec.{World}
use rustpress_plugin_authpro.Service.Login.Lockout.{counted}

-- The parts of a row that a login reads and does not write are the same.
pub record SamePerson (u v : User) : Type 0 where
  pub id : v.id ≡ u.id
  pub email : v.email ≡ u.email
  pub password_hash : v.password_hash ≡ u.password_hash
  pub status : v.status ≡ u.status
  pub email_verified_at : v.email_verified_at ≡ u.email_verified_at

pub SamePerson-refl : (u : User) → SamePerson u u
SamePerson-refl u = record {
  id = refl;
  email = refl;
  password_hash = refl;
  status = refl;
  email_verified_at = refl;
}

pub logged_in-SamePerson :
    (ip : Option String) (now : Instant) (u : User) → SamePerson u (logged_in ip now u)
logged_in-SamePerson ip now u = record {
  id = refl;
  email = refl;
  password_hash = refl;
  status = refl;
  email_verified_at = refl;
}

pub counted-SamePerson :
    (x : Externals) (c : AuthConfig) (req : LoginRequest) (ip agent : Option String) (w : World)
    (u : User)
    → SamePerson u (counted x c req ip agent w u)
unfolding count_failure
counted-SamePerson x c req ip agent w u = record {
  id = refl;
  email = refl;
  password_hash = refl;
  status = refl;
  email_verified_at = refl;
}
