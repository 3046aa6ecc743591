-- ===== src/Service/Calls/Statements.antt =====
-- What each statement of the code must keep, and that reading keeps the tables.
use rustpress_plugin_authpro.Base.{◌≡◌, String, Option}
use rustpress_plugin_authpro.Models.{Uuid, Instant}
use rustpress_plugin_authpro.Config.{AuthConfig}
use rustpress_plugin_authpro.Externals.{Externals}
use rustpress_plugin_authpro.Db.{Db, done}
use rustpress_plugin_authpro.Service.Password.Stored.{OfStrong}
use rustpress_plugin_authpro.Db.Users.{
  select_user_by_email, select_user, insert_user, record_failure, record_success, set_password,
  set_email_verified,
}
use rustpress_plugin_authpro.Db.RefreshTokens.{
  insert_refresh_token, select_refresh_token, revoke_token, revoke_user_tokens,
}
use rustpress_plugin_authpro.Db.OneTimeTokens.{
  Purpose, supersede_tokens, insert_token, select_token, use_token,
}
use rustpress_plugin_authpro.Exec.Respects.{
  IsPreorder, Respects, Keeps, Respects-run_sql, respects_rules,
}

-- The statements of the code that write keep `R`, and reading keeps the tables.
pub record StatementsKeep (R : Db → Db → Type 0) (x : Externals) (c : AuthConfig) : Type 0 where
  pub preorder : IsPreorder R
  pub inserts_user :
      (id : Uuid) (email hash name : String)
      → OfStrong x c hash
      → Keeps R (insert_user id email hash name)
  pub records_failure :
      (id : Uuid)
      → Keeps R
          (record_failure id c.max_login_attempts (λ now. x.db_add_seconds now c.lockout_duration))
  pub records_success : (id : Uuid) (ip : Option String) → Keeps R (record_success id ip)
  pub sets_password :
      (id : Uuid) (hash : String) → OfStrong x c hash → Keeps R (set_password id hash)
  pub sets_email_verified : (id : Uuid) → Keeps R (set_email_verified id)
  pub inserts_refresh :
      (id user_id : Uuid) (hash : String) (expires : Instant) (ip agent : Option String)
      → Keeps R (insert_refresh_token id user_id hash expires ip agent)
  pub revokes : (id : Uuid) → Keeps R (revoke_token id)
  pub revokes_user : (id : Uuid) → Keeps R (revoke_user_tokens id)
  pub supersedes : (p : Purpose) (user_id : Uuid) → Keeps R (supersede_tokens p user_id)
  pub inserts_token :
      (p : Purpose) (id user_id : Uuid) (hash : String) (expires : Instant)
      → Keeps R (insert_token p id user_id hash expires)
  pub uses_token : (p : Purpose) (id : Uuid) → Keeps R (use_token p id)

-- The tables have moved as the statements of the code can move them: along every preorder that these
-- keep.
abbrev pub Moves : Externals → AuthConfig → Db → Db → Type 1
Moves x c d d' = (R : Db → Db → Type 0) → StatementsKeep R x c → R d d'

-- The statements that read, for any preorder.
module _ {R : Db → Db → Type 0} (pre : IsPreorder R) where
  stays : {A : Type 0} (d d' : Db) (a b : A) → done a d ≡ done b d' → R d d'
  stays d d' a b e = let same : d ≡ d' = cc in rw (← same) (pre.same d)

  pub select_user-Keeps : (id : Uuid) → Keeps R (select_user id)
  unfolding select_user
  select_user-Keeps id now d d' a e = stays d d' _ a e

  pub select_user_by_email-Keeps : (email : String) → Keeps R (select_user_by_email email)
  unfolding select_user_by_email
  select_user_by_email-Keeps email now d d' a e = stays d d' _ a e

  pub select_refresh_token-Keeps :
      (id : Uuid) (hash : String) → Keeps R (select_refresh_token id hash)
  unfolding select_refresh_token
  select_refresh_token-Keeps id hash now d d' a e = stays d d' _ a e

  pub select_token-Keeps : (p : Purpose) (hash : String) → Keeps R (select_token p hash)
  unfolding select_token
  select_token-Keeps p hash now d d' a e = stays d d' _ a e

-- What every search below may use, beside the fields of a `StatementsKeep`.
pub ruleset statement_rules = (
  respects_rules, select_user-Keeps, select_user_by_email-Keeps, select_refresh_token-Keeps,
  select_token-Keeps,
)
