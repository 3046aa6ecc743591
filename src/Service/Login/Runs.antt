-- ===== src/Service/Login/Runs.antt =====
-- Any number of logins, one after another, run the lockout machine.
use rustpress_plugin_authpro.Base.{
  ℕ, suc, ◌≡◌, refl, ap, ◌∙◌, subst, String, not, ◌&&◌, ◌||◌, Option, none, some, List, [], ◌∷◌,
  find_by,
}
use rustpress_plugin_authpro.Models.{User, is_active, is_email_verified}
use rustpress_plugin_authpro.Models.Requests.{LoginRequest}
use rustpress_plugin_authpro.Config.{AuthConfig}
use rustpress_plugin_authpro.Externals.{Externals}
use rustpress_plugin_authpro.Db.{fits?}
use rustpress_plugin_authpro.Db.Users.{user_id}
use rustpress_plugin_authpro.Exec.{World}
use rustpress_plugin_authpro.Service.Password.{verify_password}
use rustpress_plugin_authpro.Service.Login.{login}
use rustpress_plugin_authpro.Service.Login.Lockout.{with_email}
use rustpress_plugin_authpro.Service.Login.Machine.{account, Knock, knocks}
use rustpress_plugin_authpro.Service.Login.Refinement.{login-step}
use rustpress_plugin_authpro.Service.Login.SamePerson.{SamePerson}

-- A login with an email that does not change.
pub record Visit : Type 0 where
  pub password : String
  pub ip : Option String
  pub user_agent : Option String

abbrev pub asking : String → Visit → LoginRequest
asking email v = record { email = email; password = v.password }

module _ (x : Externals) (c : AuthConfig) where
  abbrev pub log_in : String → Visit → World → World
  log_in email v w = (login x c (asking email v) v.ip v.user_agent w).1

  unfoldable pub logins : String → List Visit → World → World
  logins email [] w = w
  logins email (v ∷ vs) w = logins email vs (log_in email v w)

  -- What a login brings the machine, by its world and by what a login does not write of the user.
  abbrev pub knock_of : User → Visit → World → Knock
  knock_of u v w = record {
    now = x.utc_now (suc w.step);
    live = is_active u.status;
    checked = verify_password x c v.password u.password_hash;
    admissible = (not c.require_email_verification || is_email_verified u) && fits? 45 v.ip;
    lock_end = x.db_add_seconds (x.db_now (suc (suc w.step))) c.lockout_duration;
  }

  unfoldable pub knocks_of : User → String → List Visit → World → List Knock
  knocks_of u email [] w = []
  knocks_of u email (v ∷ vs) w = knock_of u v w ∷ knocks_of u email vs (log_in email v w)

  -- The same person brings the same.
  knocks_of-SamePerson :
      (u u' : User) (email : String) (vs : List Visit) (w : World)
      → SamePerson u u'
      → knocks_of u' email vs w ≡ knocks_of u email vs w
  unfolding knocks_of is_email_verified
  knocks_of-SamePerson u u' email [] w s = refl
  knocks_of-SamePerson u u' email (v ∷ vs) w s =
      rw
        (
          s.status,
          s.password_hash,
          s.email_verified_at,
          knocks_of-SamePerson u u' email vs (log_in email v w) s,
        )
        refl

  -- Logins refine the machine over any number of attempts, where no statement fails to be answered:
  -- whatever passwords they bring, and whatever they are answered, the user's row after them is the
  -- machine's account after as many knocks.
  pub logins-knocks :
      (email : String) (vs : List Visit) (w : World) (u : User)
      → ((n : ℕ) → x.db_fault n ≡ none)
      → with_email email w.db ≡ some u
      → find_by user_id u.id w.db.users ≡ some u
      → (v : User) × (find_by user_id u.id (logins email vs w).db.users ≡ some v)
        × (account v ≡ knocks c.max_login_attempts (knocks_of u email vs w) (account u))
  unfolding logins knocks_of
  logins-knocks email [] w u healthy by_email by_id = (u, by_id, refl)
  logins-knocks email (v ∷ vs) w u healthy by_email by_id =
      let s =
        login-step x c (asking email v) v.ip v.user_agent w u
          (record { healthy = healthy; by_email = by_email; by_id = by_id }) in
      let (last, found, same) =
        logins-knocks email vs (log_in email v w) s.row healthy s.by_email
          (rw s.person.id s.by_id) in
      (
        last,
        subst (λ i. find_by user_id i (logins email vs (log_in email v w)).db.users ≡ some last)
            s.person.id found,
        same
            ∙ ap (λ ks. knocks c.max_login_attempts ks (account s.row))
                (knocks_of-SamePerson u s.row email vs (log_in email v w) s.person)
            ∙ ap (knocks c.max_login_attempts (knocks_of u email vs (log_in email v w))) s.stepped,
      )
