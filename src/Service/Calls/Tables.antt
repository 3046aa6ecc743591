-- ===== src/Service/Calls/Tables.antt =====
-- A preorder on the rows of one table that the statements on it keep, as one on all tables that
-- every statement keeps.
use rustpress_plugin_authpro.Base.{
  ◌≡◌, inl, inr, String, str_eq, false, Option, some, true, List, [], ◌∷◌, ◌++◌, any, find_by,
  update_by, ◌==◌,
}
use rustpress_plugin_authpro.Models.{Uuid, Instant, User}
use rustpress_plugin_authpro.Config.{AuthConfig}
use rustpress_plugin_authpro.Externals.{Externals}
use rustpress_plugin_authpro.Base.Int.{suc_ℤ, leb_ℤ, i32_max}
use rustpress_plugin_authpro.Service.Password.Stored.{OfStrong}
use rustpress_plugin_authpro.Db.Users.{
  user_id, new_user, count_failure, logged_in, with_password, verified,
}
use rustpress_plugin_authpro.Db.Effects.{
  insert_user-done, record_failure-done, record_failure-counted, record_success-done,
  set_password-done, set_email_verified-done, insert_refresh_token-done, revoke_token-done,
  revoke_user_tokens-done, users-with_tokens, supersede_tokens-done, insert_token-done,
  use_token-done,
}
use rustpress_plugin_authpro.Service.Calls.Statements.{StatementsKeep}

pub record UsersKeep (S : List User → List User → Type 0) (x : Externals) (c : AuthConfig)
    : Type 0 where
  pub same : (us : List User) → S us us
  pub next : (us vs ws : List User) → S us vs → S vs ws → S us ws
  pub inserts :
      (us : List User) (id : Uuid) (email hash name : String) (now : Instant)
      → OfStrong x c hash
      → any (λ u. u.id == id) us ≡ false
      → any (λ u. str_eq u.email email) us ≡ false
      → S us (us ++ new_user id email hash name now ∷ [])
  pub fails :
      (us : List User) (id : Uuid) (now : Instant)
      → ((u : User)
          → find_by user_id id us ≡ some u
          → leb_ℤ (suc_ℤ u.failed_login_attempts) i32_max ≡ true)
      → S us (
          update_by user_id id
            (count_failure c.max_login_attempts (x.db_add_seconds now c.lockout_duration) now)
            us)
  pub succeeds :
      (us : List User) (id : Uuid) (ip : Option String) (now : Instant)
      → S us (update_by user_id id (logged_in ip now) us)
  pub changes_password :
      (us : List User) (id : Uuid) (hash : String) (now : Instant)
      → OfStrong x c hash
      → S us (update_by user_id id (with_password hash now) us)
  pub verifies :
      (us : List User) (id : Uuid) (now : Instant) → S us (update_by user_id id (verified now) us)

pub users-StatementsKeep :
    (S : List User → List User → Type 0) (x : Externals) (c : AuthConfig)
    → UsersKeep S x c
    → StatementsKeep (λ d d'. S d.users d'.users) x c
users-StatementsKeep S x c k = record {
  preorder = record { same = λ d. k.same d.users; next = λ a b d. k.next a.users b.users d.users };
  inserts_user = λ id email hash name strong now d d' a e.
      let (moved, row, id_new, email_new) = insert_user-done now d d' id email hash name a e in
      rw moved (k.inserts d.users id email hash name now strong id_new email_new);
  records_failure = λ id now d d' a e.
      elim (record_failure-done now d d' id c.max_login_attempts
        (λ now. x.db_add_seconds now c.lockout_duration) a e) [
          | inl same ↦ rw same (k.same d.users)
          | inr moved ↦ rw moved (
              k.fails d.users id now (λ u.
                record_failure-counted now d d' id c.max_login_attempts
                  (λ now. x.db_add_seconds now c.lockout_duration) a u e))
        ];
  records_success = λ id ip now d d' a e.
      rw (record_success-done now d d' id ip a e) (k.succeeds d.users id ip now);
  sets_password = λ id hash strong now d d' a e.
      rw (set_password-done now d d' id hash a e) (k.changes_password d.users id hash now strong);
  sets_email_verified =
      λ id now d d' a e. rw (set_email_verified-done now d d' id a e) (k.verifies d.users id now);
  inserts_refresh = λ id user hash expires ip agent now d d' a e.
      let moved = insert_refresh_token-done now d d' id user hash expires ip agent a e in
      rw moved.0 (k.same d.users);
  revokes = λ id now d d' a e. rw (revoke_token-done now d d' id a e) (k.same d.users);
  revokes_user = λ id now d d' a e. rw (revoke_user_tokens-done now d d' id a e) (k.same d.users);
  supersedes = λ p id now d d' a e.
      rw (users-with_tokens p _ d d' (supersede_tokens-done now d d' p id a e)) (k.same d.users);
  inserts_token = λ p id user hash expires now d d' a e.
      let moved = insert_token-done now d d' p id user hash expires a e in
      rw (users-with_tokens p _ d d' moved.0) (k.same d.users);
  uses_token = λ p id now d d' a e.
      rw (users-with_tokens p _ d d' (use_token-done now d d' p id a e)) (k.same d.users);
}
