-- ===== src/Db/Changes.antt =====
-- What the statements do, apart from how they are written: each change as a lookup by the primary key
-- sees it, with the columns written out. A row that is not named stays as it was.
use mathlib.Core.Option
use rustpress_plugin_authpro.Base.{
  ◌≡◌, refl, ◌∙◌, ap, String, false, not, ◌&&◌, Option, none, some, arith, any, any-update_false,
  ◌==◌, find_by, find-update_by, find-update_where, update_by, update_where, is_some, if◌then◌else◌,
}
use rustpress_plugin_authpro.Base.Int.{pos}
use rustpress_plugin_authpro.Models.{Uuid, Instant, User, RefreshToken, OneTimeToken, active}
use rustpress_plugin_authpro.Db.{Db}
use rustpress_plugin_authpro.Db.Users.{user_id, with_password, logged_in, verified}
use rustpress_plugin_authpro.Db.RefreshTokens.{token_id, revoked_now, is_live_of}
use rustpress_plugin_authpro.Db.OneTimeTokens.{Purpose, tokens, one_time_id, used_now}

-- A user's hash is set.
pub record PasswordSet (user : Uuid) (hash : String) (now : Instant) (d d' : Db) : Type 0 where
  pub rows :
      (k : Uuid)
      → find_by user_id k d'.users ≡ (
          if user == k
          then Option.map {A = User}
              (λ u. record u { password_hash = hash; password_changed_at = now; updated_at = now })
              (find_by user_id k d.users)
          else find_by user_id k d.users)

pub PasswordSet-made :
    (user : Uuid) (hash : String) (now : Instant) (d d' : Db)
    → d'.users ≡ update_by user_id user (with_password hash now) d.users
    → PasswordSet user hash now d d'
PasswordSet-made user hash now d d' moved = record {
  rows = λ k.
      ap (find_by user_id k) moved
      ∙ find-update_by user_id k user (with_password hash now) (λ v. refl) d.users;
}

-- A login is recorded on a user's row: no failures, no lock, its time and its address.
pub record LoginRecorded (user : Uuid) (ip : Option String) (now : Instant) (d d' : Db)
    : Type 0 where
  pub rows :
      (k : Uuid)
      → find_by user_id k d'.users ≡ (
          if user == k
          then Option.map {A = User}
              (λ u. record u {
                failed_login_attempts = pos 0;
                locked_until = none;
                last_login_at = some now;
                last_login_ip = ip;
                updated_at = now;
              })
              (find_by user_id k d.users)
          else find_by user_id k d.users)

pub LoginRecorded-made :
    (user : Uuid) (ip : Option String) (now : Instant) (d d' : Db)
    → d'.users ≡ update_by user_id user (logged_in ip now) d.users
    → LoginRecorded user ip now d d'
LoginRecorded-made user ip now d d' moved = record {
  rows = λ k.
      ap (find_by user_id k) moved
      ∙ find-update_by user_id k user (logged_in ip now) (λ v. refl) d.users;
}

-- A user's email is verified, and the user active.
pub record EmailVerified (user : Uuid) (now : Instant) (d d' : Db) : Type 0 where
  pub rows :
      (k : Uuid)
      → find_by user_id k d'.users ≡ (
          if user == k
          then Option.map {A = User}
              (λ u. record u { email_verified_at = some now; status = active; updated_at = now })
              (find_by user_id k d.users)
          else find_by user_id k d.users)

pub EmailVerified-made :
    (user : Uuid) (now : Instant) (d d' : Db)
    → d'.users ≡ update_by user_id user (verified now) d.users
    → EmailVerified user now d d'
EmailVerified-made user now d d' moved = record {
  rows = λ k.
      ap (find_by user_id k) moved
      ∙ find-update_by user_id k user (verified now) (λ v. refl) d.users;
}

-- One refresh token is revoked.
pub record SessionEnded (id : Uuid) (now : Instant) (d d' : Db) : Type 0 where
  pub rows :
      (k : Uuid)
      → find_by token_id k d'.refresh_tokens ≡ (
          if id == k
          then Option.map {A = RefreshToken}
              (λ t. record t { revoked_at = some now })
              (find_by token_id k d.refresh_tokens)
          else find_by token_id k d.refresh_tokens)

pub SessionEnded-made :
    (id : Uuid) (now : Instant) (d d' : Db)
    → d'.refresh_tokens ≡ update_by token_id id (revoked_now now) d.refresh_tokens
    → SessionEnded id now d d'
SessionEnded-made id now d d' moved = record {
  rows = λ k.
      ap (find_by token_id k) moved
      ∙ find-update_by token_id k id (revoked_now now) (λ v. refl) d.refresh_tokens;
}

-- One one-time token is used.
pub record TokenUsed (p : Purpose) (id : Uuid) (now : Instant) (d d' : Db) : Type 0 where
  pub rows :
      (k : Uuid)
      → find_by one_time_id k (tokens p d') ≡ (
          if id == k
          then Option.map {A = OneTimeToken}
              (λ t. record t { used_at = some now })
              (find_by one_time_id k (tokens p d))
          else find_by one_time_id k (tokens p d))

pub TokenUsed-made :
    (p : Purpose) (id : Uuid) (now : Instant) (d d' : Db)
    → (tokens p d') ≡ update_by one_time_id id (used_now now) (tokens p d)
    → TokenUsed p id now d d'
TokenUsed-made p id now d d' moved = record {
  rows = λ k.
      ap (find_by one_time_id k) moved
      ∙ find-update_by one_time_id k id (used_now now) (λ v. refl) (tokens p d);
}

-- The live refresh tokens of a user are revoked, and no other.
pub record SessionsEnded (user : Uuid) (now : Instant) (d d' : Db) : Type 0 where
  pub none_live :
      any (λ t. t.user_id == user && not (is_some t.revoked_at)) d'.refresh_tokens ≡ false
  pub rows :
      (k : Uuid)
      → find_by token_id k d'.refresh_tokens
        ≡ Option.map
            (λ t.
              if t.user_id == user && not (is_some t.revoked_at)
              then record t { revoked_at = some now }
              else t)
            (find_by token_id k d.refresh_tokens)

pub SessionsEnded-made :
    (user : Uuid) (now : Instant) (d d' : Db)
    → d'.refresh_tokens ≡ update_where (is_live_of user) (revoked_now now) d.refresh_tokens
    → SessionsEnded user now d d'
SessionsEnded-made user now d d' moved = record {
  none_live =
      ap (any (λ t. t.user_id == user && not (is_some t.revoked_at))) moved
      ∙ any-update_false (λ t. t.user_id == user && not (is_some t.revoked_at)) (is_live_of user)
          (revoked_now now) (λ t. ground arith) d.refresh_tokens;
  rows = λ k.
      ap (find_by token_id k) moved
      ∙ find-update_where token_id k (is_live_of user) (revoked_now now) (λ t. refl)
          d.refresh_tokens;
}
