-- ===== src/Safety/Schema/References.antt =====
-- The foreign keys of the tables of tokens: each token names a user.
use rustpress_plugin_authpro.Base.{
  ◌≡◌, refl, Bool, inl, inr, List, update_by, update_where, ◌==◌, Refers, Refers-update,
  Refers-append, KeepsKeys, KeepsKeys-update, KeepsKeys-append,
}
use rustpress_plugin_authpro.Models.{Uuid, User, RefreshToken, OneTimeToken}
use rustpress_plugin_authpro.Config.{AuthConfig}
use rustpress_plugin_authpro.Externals.{Externals}
use rustpress_plugin_authpro.Db.{Db}
use rustpress_plugin_authpro.Db.Users.{user_id, new_user, count_failure}
use rustpress_plugin_authpro.Db.RefreshTokens.{new_token, revoked_now, is_live_of}
use rustpress_plugin_authpro.Db.OneTimeTokens.{
  Purpose, password_reset, email_verification, tokens, with_tokens, new_one_time, used_now,
  is_unused_of,
}
use rustpress_plugin_authpro.Db.Effects.{
  insert_user-done, record_failure-done, record_success-done, set_password-done,
  set_email_verified-done, insert_refresh_token-done, insert_refresh_token-owned, revoke_token-done,
  revoke_user_tokens-done, supersede_tokens-done, insert_token-done, insert_token-owned,
  use_token-done,
}
use rustpress_plugin_authpro.Service.Calls.Statements.{StatementsKeep}

abbrev refresh_owner : RefreshToken → Uuid
refresh_owner t = t.user_id

abbrev one_time_owner : OneTimeToken → Uuid
one_time_owner t = t.user_id

-- REFERENCES users(id), on the three tables
abbrev pub HasOwners : Db → Type 0
HasOwners d =
    Refers refresh_owner user_id d.refresh_tokens d.users
    × Refers one_time_owner user_id d.password_reset_tokens d.users
    × Refers one_time_owner user_id d.email_verification_tokens d.users

users_move :
    (d : Db) (us : List User)
    → KeepsKeys user_id d.users us
    → HasOwners d
    → HasOwners (record d { users = us })
users_move d us keeps (refresh, reset, verification) = (
  λ k named. keeps k (refresh k named),
  λ k named. keeps k (reset k named),
  λ k named. keeps k (verification k named),
)

user_updates :
    (d : Db) (id : Uuid) (f : User → User)
    → ((u : User) → (f u).id ≡ u.id)
    → HasOwners d
    → HasOwners (record d { users = update_by user_id id f d.users })
user_updates d id f same =
    users_move d _ (KeepsKeys-update user_id (λ u. u.id == id) f same d.users)

tokens_move :
    (p : Purpose) (d : Db) (ts : List OneTimeToken)
    → (Refers one_time_owner user_id (tokens p d) d.users
        → Refers one_time_owner user_id ts d.users)
    → HasOwners d
    → HasOwners (with_tokens p ts d)
tokens_move password_reset d ts f (refresh, reset, verification) = (refresh, f reset, verification)
tokens_move email_verification d ts f (refresh, reset, verification) =
    (refresh, reset, f verification)

token_updates :
    (p : Purpose) (d : Db) (q : OneTimeToken → Bool) (f : OneTimeToken → OneTimeToken)
    → ((t : OneTimeToken) → (f t).user_id ≡ t.user_id)
    → HasOwners d
    → HasOwners (with_tokens p (update_where q f (tokens p d)) d)
token_updates p d q f same =
    tokens_move p d _ (Refers-update one_time_owner user_id q f same (tokens p d) d.users)

pub owners-keep :
    (x : Externals) (c : AuthConfig) → StatementsKeep (λ d d'. HasOwners d → HasOwners d') x c
unfolding count_failure
owners-keep x c = record {
  preorder = record { same = λ d h. h; next = λ a b d f g h. g (f h) };
  inserts_user = λ id email hash name _ now d d' a e.
      let moved = insert_user-done now d d' id email hash name a e in
      rw moved.0
        (users_move d _ (KeepsKeys-append user_id d.users (new_user id email hash name now)));
  records_failure = λ id now d d' a e.
      elim (record_failure-done now d d' id c.max_login_attempts
        (λ now. x.db_add_seconds now c.lockout_duration) a e) [
          | inl same ↦ rw same (λ h. h)
          | inr moved ↦ rw moved (user_updates d id _ (λ u. refl))
        ];
  records_success = λ id ip now d d' a e.
      rw (record_success-done now d d' id ip a e) (user_updates d id _ (λ u. refl));
  sets_password = λ id hash _ now d d' a e.
      rw (set_password-done now d d' id hash a e) (user_updates d id _ (λ u. refl));
  sets_email_verified = λ id now d d' a e.
      rw (set_email_verified-done now d d' id a e) (user_updates d id _ (λ u. refl));
  inserts_refresh = λ id user hash expires ip agent now d d' a e.
      let moved = insert_refresh_token-done now d d' id user hash expires ip agent a e in
      let owned = insert_refresh_token-owned now d d' id user hash expires ip agent a e in
      rw moved.0 (λ h. (
        Refers-append refresh_owner user_id d.refresh_tokens
            (new_token id user hash expires ip agent now) d.users owned h.0,
        h.1,
        h.2,
      ));
  revokes = λ id now d d' a e. rw (revoke_token-done now d d' id a e) (λ h. (
    Refers-update refresh_owner user_id (λ t. t.id == id) (revoked_now now) (λ t. refl)
        d.refresh_tokens d.users h.0,
    h.1,
    h.2,
  ));
  revokes_user = λ id now d d' a e. rw (revoke_user_tokens-done now d d' id a e) (λ h. (
    Refers-update refresh_owner user_id (is_live_of id) (revoked_now now) (λ t. refl)
        d.refresh_tokens d.users h.0,
    h.1,
    h.2,
  ));
  supersedes = λ p id now d d' a e.
      rw (supersede_tokens-done now d d' p id a e)
        (token_updates p d (is_unused_of id) (used_now now) (λ t. refl));
  inserts_token = λ p id user hash expires now d d' a e.
      let moved = insert_token-done now d d' p id user hash expires a e in
      let owned = insert_token-owned now d d' p id user hash expires a e in
      rw moved.0 (
        tokens_move p d _ (
          Refers-append one_time_owner user_id (tokens p d) (new_one_time id user hash expires now)
            d.users owned));
  uses_token = λ p id now d d' a e.
      rw (use_token-done now d d' p id a e)
        (token_updates p d (λ t. t.id == id) (used_now now) (λ t. refl));
}
