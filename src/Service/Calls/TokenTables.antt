-- ===== src/Service/Calls/TokenTables.antt =====
-- As `Tables`, for the tokens: a preorder on the rows of one table that the statements on it keep, as
-- one on all tables that every statement keeps.
use rustpress_plugin_authpro.Base.{
  ◌≡◌, ap, inl, inr, String, str_eq, false, Option, List, [], ◌∷◌, ◌++◌, any, update_by,
  update_where, ◌==◌,
}
use rustpress_plugin_authpro.Models.{Uuid, Instant, RefreshToken, OneTimeToken}
use rustpress_plugin_authpro.Config.{AuthConfig}
use rustpress_plugin_authpro.Externals.{Externals}
use rustpress_plugin_authpro.Db.{Db}
use rustpress_plugin_authpro.Db.RefreshTokens.{token_id, new_token, revoked_now, is_live_of}
use rustpress_plugin_authpro.Db.OneTimeTokens.{
  Purpose, password_reset, email_verification, tokens, with_tokens, one_time_id, new_one_time,
  used_now, is_unused_of,
}
use rustpress_plugin_authpro.Db.Effects.{
  insert_user-done, record_failure-done, record_success-done, set_password-done,
  set_email_verified-done, insert_refresh_token-done, revoke_token-done, revoke_user_tokens-done,
  refresh_tokens-with_tokens, supersede_tokens-done, insert_token-done, use_token-done,
}
use rustpress_plugin_authpro.Service.Calls.Statements.{StatementsKeep}

pub record RefreshKeep (S : List RefreshToken → List RefreshToken → Type 0) : Type 0 where
  pub same : (ts : List RefreshToken) → S ts ts
  pub next : (ts us vs : List RefreshToken) → S ts us → S us vs → S ts vs
  pub inserts :
      (ts : List RefreshToken) (id user : Uuid) (hash : String) (expires : Instant)
      (ip agent : Option String) (now : Instant)
      → any (λ t. t.id == id) ts ≡ false
      → any (λ t. str_eq t.token_hash hash) ts ≡ false
      → S ts (ts ++ new_token id user hash expires ip agent now ∷ [])
  pub revokes :
      (ts : List RefreshToken) (id : Uuid) (now : Instant)
      → S ts (update_by token_id id (revoked_now now) ts)
  pub revokes_user :
      (ts : List RefreshToken) (user : Uuid) (now : Instant)
      → S ts (update_where (is_live_of user) (revoked_now now) ts)

pub refresh-StatementsKeep :
    (S : List RefreshToken → List RefreshToken → Type 0) (x : Externals) (c : AuthConfig)
    → RefreshKeep S
    → StatementsKeep (λ d d'. S d.refresh_tokens d'.refresh_tokens) x c
refresh-StatementsKeep S x c k = record {
  preorder = record {
    same = λ d. k.same d.refresh_tokens;
    next = λ a b d. k.next a.refresh_tokens b.refresh_tokens d.refresh_tokens;
  };
  inserts_user = λ id email hash name _ now d d' a e.
      let moved = insert_user-done now d d' id email hash name a e in
      rw moved.0 (k.same d.refresh_tokens);
  records_failure = λ id now d d' a e.
      elim (record_failure-done now d d' id c.max_login_attempts
        (λ now. x.db_add_seconds now c.lockout_duration) a e) [
          | inl same ↦ rw same (k.same d.refresh_tokens)
          | inr moved ↦ rw moved (k.same d.refresh_tokens)
        ];
  records_success =
      λ id ip now d d' a e. rw (record_success-done now d d' id ip a e) (k.same d.refresh_tokens);
  sets_password = λ id hash _ now d d' a e.
      rw (set_password-done now d d' id hash a e) (k.same d.refresh_tokens);
  sets_email_verified =
      λ id now d d' a e. rw (set_email_verified-done now d d' id a e) (k.same d.refresh_tokens);
  inserts_refresh = λ id user hash expires ip agent now d d' a e.
      let (moved, id_new, hash_new) =
        insert_refresh_token-done now d d' id user hash expires ip agent a e in
      rw moved (k.inserts d.refresh_tokens id user hash expires ip agent now id_new hash_new);
  revokes =
      λ id now d d' a e. rw (revoke_token-done now d d' id a e) (k.revokes d.refresh_tokens id now);
  revokes_user = λ id now d d' a e.
      rw (revoke_user_tokens-done now d d' id a e) (k.revokes_user d.refresh_tokens id now);
  supersedes = λ p id now d d' a e.
      rw (refresh_tokens-with_tokens p _ d d' (supersede_tokens-done now d d' p id a e))
        (k.same d.refresh_tokens);
  inserts_token = λ p id user hash expires now d d' a e.
      let moved = insert_token-done now d d' p id user hash expires a e in
      rw (refresh_tokens-with_tokens p _ d d' moved.0) (k.same d.refresh_tokens);
  uses_token = λ p id now d d' a e.
      rw (refresh_tokens-with_tokens p _ d d' (use_token-done now d d' p id a e))
        (k.same d.refresh_tokens);
}

pub record OneTimeKeep (S : List OneTimeToken → List OneTimeToken → Type 0) : Type 0 where
  pub same : (ts : List OneTimeToken) → S ts ts
  pub next : (ts us vs : List OneTimeToken) → S ts us → S us vs → S ts vs
  pub supersedes :
      (ts : List OneTimeToken) (user : Uuid) (now : Instant)
      → S ts (update_where (is_unused_of user) (used_now now) ts)
  pub inserts :
      (ts : List OneTimeToken) (id user : Uuid) (hash : String) (expires : Instant) (now : Instant)
      → any (λ t. t.id == id) ts ≡ false
      → any (λ t. str_eq t.token_hash hash) ts ≡ false
      → S ts (ts ++ new_one_time id user hash expires now ∷ [])
  pub uses :
      (ts : List OneTimeToken) (id : Uuid) (now : Instant)
      → S ts (update_by one_time_id id (used_now now) ts)

-- A move of one of the two tables, seen in either.
other_table :
    (S : List OneTimeToken → List OneTimeToken → Type 0) (p q : Purpose) (d d' : Db)
    (ts : List OneTimeToken)
    → ((us : List OneTimeToken) → S us us)
    → d' ≡ with_tokens p ts d
    → S (tokens p d) ts
    → S (tokens q d) (tokens q d')
other_table S password_reset password_reset d d' ts same moved h = rw moved h
other_table S password_reset email_verification d d' ts same moved h = rw moved (same _)
other_table S email_verification password_reset d d' ts same moved h = rw moved (same _)
other_table S email_verification email_verification d d' ts same moved h = rw moved h

-- The one-time tokens of other statements stay.
same_tables :
    (S : List OneTimeToken → List OneTimeToken → Type 0) (q : Purpose) (d d' : Db)
    → ((us : List OneTimeToken) → S us us)
    → d'.password_reset_tokens ≡ d.password_reset_tokens
    → d'.email_verification_tokens ≡ d.email_verification_tokens
    → S (tokens q d) (tokens q d')
same_tables S password_reset d d' same e f = rw e (same _)
same_tables S email_verification d d' same e f = rw f (same _)

pub one_time-StatementsKeep :
    (S : List OneTimeToken → List OneTimeToken → Type 0) (q : Purpose) (x : Externals)
    (c : AuthConfig)
    → OneTimeKeep S
    → StatementsKeep (λ d d'. S (tokens q d) (tokens q d')) x c
one_time-StatementsKeep S q x c k = record {
  preorder = record {
    same = λ d. k.same (tokens q d);
    next = λ a b d. k.next (tokens q a) (tokens q b) (tokens q d);
  };
  inserts_user = λ id email hash name _ now d d' a e.
      let moved = insert_user-done now d d' id email hash name a e in
      still d d' (ap (λ d. d.password_reset_tokens) moved.0)
        (ap (λ d. d.email_verification_tokens) moved.0);
  records_failure = λ id now d d' a e.
      elim (record_failure-done now d d' id c.max_login_attempts
        (λ now. x.db_add_seconds now c.lockout_duration) a e) [
          | inl same ↦
              still d d' (ap (λ d. d.password_reset_tokens) same)
                (ap (λ d. d.email_verification_tokens) same)
          | inr moved ↦
              still d d' (ap (λ d. d.password_reset_tokens) moved)
                (ap (λ d. d.email_verification_tokens) moved)
        ];
  records_success = λ id ip now d d' a e.
      let moved = record_success-done now d d' id ip a e in
      still d d' (ap (λ d. d.password_reset_tokens) moved)
        (ap (λ d. d.email_verification_tokens) moved);
  sets_password = λ id hash _ now d d' a e.
      let moved = set_password-done now d d' id hash a e in
      still d d' (ap (λ d. d.password_reset_tokens) moved)
        (ap (λ d. d.email_verification_tokens) moved);
  sets_email_verified = λ id now d d' a e.
      let moved = set_email_verified-done now d d' id a e in
      still d d' (ap (λ d. d.password_reset_tokens) moved)
        (ap (λ d. d.email_verification_tokens) moved);
  inserts_refresh = λ id user hash expires ip agent now d d' a e.
      let moved = insert_refresh_token-done now d d' id user hash expires ip agent a e in
      still d d' (ap (λ d. d.password_reset_tokens) moved.0)
        (ap (λ d. d.email_verification_tokens) moved.0);
  revokes = λ id now d d' a e.
      let moved = revoke_token-done now d d' id a e in
      still d d' (ap (λ d. d.password_reset_tokens) moved)
        (ap (λ d. d.email_verification_tokens) moved);
  revokes_user = λ id now d d' a e.
      let moved = revoke_user_tokens-done now d d' id a e in
      still d d' (ap (λ d. d.password_reset_tokens) moved)
        (ap (λ d. d.email_verification_tokens) moved);
  supersedes = λ p id now d d' a e.
      other_table S p q d d' _ k.same (supersede_tokens-done now d d' p id a e)
        (k.supersedes (tokens p d) id now);
  inserts_token = λ p id user hash expires now d d' a e.
      let (moved, id_new, hash_new) = insert_token-done now d d' p id user hash expires a e in
      other_table S p q d d' _ k.same moved
        (k.inserts (tokens p d) id user hash expires now id_new hash_new);
  uses_token = λ p id now d d' a e.
      other_table S p q d d' _ k.same (use_token-done now d d' p id a e)
        (k.uses (tokens p d) id now);
}
  where
    still :
        (d d' : Db)
        → d'.password_reset_tokens ≡ d.password_reset_tokens
        → d'.email_verification_tokens ≡ d.email_verification_tokens
        → S (tokens q d) (tokens q d')
    still d d' e f = same_tables S q d d' k.same e f
