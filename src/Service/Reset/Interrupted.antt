-- ===== src/Service/Reset/Interrupted.antt =====
-- A password reset that loses the database in the middle: there is no transaction.
use rustpress_plugin_authpro.Base.{suc, ◌≡◌, refl, String, true, none, some, update_by}
use rustpress_plugin_authpro.Error.{ok, err, database}
use rustpress_plugin_authpro.Models.{OneTimeToken}
use rustpress_plugin_authpro.Models.Requests.{ResetPasswordRequest}
use rustpress_plugin_authpro.Config.{AuthConfig}
use rustpress_plugin_authpro.Externals.{Externals}
use rustpress_plugin_authpro.Db.{fits}
use rustpress_plugin_authpro.Db.Users.{user_id, with_password}
use rustpress_plugin_authpro.Db.OneTimeTokens.{is_usable, select_token}
use rustpress_plugin_authpro.Db.Changes.{PasswordSet, PasswordSet-made}
use rustpress_plugin_authpro.Exec.{World, ◌>>=◌}
use rustpress_plugin_authpro.Service.Password.{hash_with_salt, hash_password, validate_password}
use rustpress_plugin_authpro.Service.Token.{hash_token}
use rustpress_plugin_authpro.Service.Reset.{reset_password}
use rustpress_plugin_authpro.Service.Reset.Done.{usable_token}
use rustpress_plugin_authpro.Service.Reset.Complete.{set_password_lem}

module _ (x : Externals) (c : AuthConfig) (req : ResetPasswordRequest) (w : World) where
  -- A reset that would succeed, but that the UPDATE of the token does not reach the database.
  pub record Interrupted : Type 0 where
    pub token : OneTimeToken
    pub hash : String
    pub message : String
    pub strong : validate_password x c req.password ≡ ok tt
    pub found :
        usable_token (hash_token x c req.token) (x.db_now w.step) w.db.password_reset_tokens
        ≡ some token
    pub hashed : hash_with_salt x c req.password (x.salt (suc w.step)) ≡ ok hash
    pub hash_fits : fits 255 hash ≡ true
    pub selects : x.db_fault w.step ≡ none
    pub sets : x.db_fault (suc (suc w.step)) ≡ none
    pub breaks : x.db_fault (suc (suc (suc w.step))) ≡ some message

  abbrev interrupted_world : Interrupted → World
  interrupted_world h = record {
    db = record w.db {
      users =
          update_by user_id h.token.user_id (with_password h.hash (x.db_now (suc (suc w.step))))
            w.db.users;
    };
    step = suc (suc (suc (suc w.step)));
  }

  interrupted_run :
      (h : Interrupted) → reset_password x c req w ≡ (err (database h.message), interrupted_world h)
  unfolding reset_password hash_password select_token is_usable ◌>>=◌
  interrupted_run h = simp (
    h.strong,
    h.found,
    h.hashed,
    h.selects,
    h.sets,
    h.breaks,
    set_password_lem h.token.user_id h.hash (x.db_now (suc (suc w.step))) w.db h.hash_fits,
  )

  -- A reset that is interrupted before it marks its token answers with an error, and has changed the
  -- password all the same: the stored hash of the token's user is that of the new password, and no
  -- other user's, while the token stays as usable as it was and no session has been ended.
  pub reset_password-interrupted :
      (h : Interrupted)
      → (w' : World) × (reset_password x c req w ≡ (err (database h.message), w'))
        × PasswordSet h.token.user_id h.hash (x.db_now (suc (suc w.step))) w.db w'.db
        × (usable_token (hash_token x c req.token) (x.db_now w.step) w'.db.password_reset_tokens
            ≡ some h.token)
        × (w'.db ≡ record w.db { users = w'.db.users })
  reset_password-interrupted h = (
    interrupted_world h,
    interrupted_run h,
    PasswordSet-made h.token.user_id h.hash _ w.db (interrupted_world h).db refl,
    h.found,
    refl,
  )
