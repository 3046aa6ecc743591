-- ===== src/Db/Effects.antt =====
-- What a statement that was answered has done to the tables, and which constraints it met.
use rustpress_plugin_authpro.Base.{
  ℕ, ◌≡◌, ap, ◌⊎◌, String, str_eq, true, false, Option, some, List, [], ◌∷◌, ◌++◌, arith, any,
  find_by, update_by, update_where, ◌==◌,
}
use rustpress_plugin_authpro.Base.Int.{ℤ, suc_ℤ, leb_ℤ, i32_max}
use rustpress_plugin_authpro.Models.{Uuid, Instant, User, OneTimeToken}
use rustpress_plugin_authpro.Db.{Db, done}
use rustpress_plugin_authpro.Db.Users.{
  user_id, update_user, new_user, count_failure, logged_in, with_password, verified, insert_user,
  record_failure, record_success, set_password, set_email_verified,
}
use rustpress_plugin_authpro.Db.RefreshTokens.{
  token_id, new_token, revoked_now, is_live_of, insert_refresh_token, revoke_token,
  revoke_user_tokens,
}
use rustpress_plugin_authpro.Db.OneTimeTokens.{
  Purpose, password_reset, email_verification, tokens, with_tokens, one_time_id, new_one_time,
  used_now, is_unused_of, supersede_tokens, insert_token, use_token,
}

module _ (p : Purpose) (ts : List OneTimeToken) (d d' : Db) (moved : d' ≡ with_tokens p ts d) where
  pub users-with_tokens : d'.users ≡ d.users
  users-with_tokens = moved_users p moved
    where
      moved_users : (p : Purpose) → d' ≡ with_tokens p ts d → d'.users ≡ d.users
      moved_users password_reset e = ap (λ d. d.users) e
      moved_users email_verification e = ap (λ d. d.users) e

  pub refresh_tokens-with_tokens : d'.refresh_tokens ≡ d.refresh_tokens
  refresh_tokens-with_tokens = moved_tokens p moved
    where
      moved_tokens : (p : Purpose) → d' ≡ with_tokens p ts d → d'.refresh_tokens ≡ d.refresh_tokens
      moved_tokens password_reset e = ap (λ d. d.refresh_tokens) e
      moved_tokens email_verification e = ap (λ d. d.refresh_tokens) e

module _ (now : Instant) (d d' : Db) where
  pub insert_user-done :
      (id : Uuid) (email hash name : String) (a : User)
      → insert_user id email hash name now d ≡ done a d'
      → (d' ≡ record d { users = d.users ++ new_user id email hash name now ∷ [] })
        × (a ≡ new_user id email hash name now)
        × (any (λ u. u.id == id) d.users ≡ false)
        × (any (λ u. str_eq u.email email) d.users ≡ false)
  unfolding insert_user
  insert_user-done id email hash name a e = ground arith

  pub record_failure-done :
      (id : Uuid) (max : ℤ) (lock_end : Instant → Option Instant) (rows : ℕ)
      → record_failure id max lock_end now d ≡ done rows d'
      → (d' ≡ d) ⊎ (d' ≡ update_user id (count_failure max (lock_end now) now) d)
  unfolding record_failure
  record_failure-done id max lock_end rows e = ground arith

  -- A failure that was counted fits the column.
  pub record_failure-counted :
      (id : Uuid) (max : ℤ) (lock_end : Instant → Option Instant) (rows : ℕ) (u : User)
      → record_failure id max lock_end now d ≡ done rows d'
      → find_by user_id id d.users ≡ some u
      → leb_ℤ (suc_ℤ u.failed_login_attempts) i32_max ≡ true
  unfolding record_failure
  record_failure-counted id max lock_end rows u e found = ground arith

  pub record_success-done :
      (id : Uuid) (ip : Option String) (a : Unit {0})
      → record_success id ip now d ≡ done a d'
      → d' ≡ update_user id (logged_in ip now) d
  unfolding record_success
  record_success-done id ip a e = ground arith

  pub set_password-done :
      (id : Uuid) (hash : String) (a : Unit {0})
      → set_password id hash now d ≡ done a d'
      → d' ≡ update_user id (with_password hash now) d
  unfolding set_password
  set_password-done id hash a e = ground arith

  pub set_email_verified-done :
      (id : Uuid) (a : User)
      → set_email_verified id now d ≡ done a d'
      → d' ≡ update_user id (verified now) d
  unfolding set_email_verified
  set_email_verified-done id a e = ground arith

  pub insert_refresh_token-done :
      (id user : Uuid) (hash : String) (expires : Instant) (ip agent : Option String) (a : Unit {0})
      → insert_refresh_token id user hash expires ip agent now d ≡ done a d'
      → (d' ≡ record d {
        refresh_tokens = d.refresh_tokens ++ new_token id user hash expires ip agent now ∷ [];
      })
        × (any (λ t. t.id == id) d.refresh_tokens ≡ false)
        × (any (λ t. str_eq t.token_hash hash) d.refresh_tokens ≡ false)
  unfolding insert_refresh_token
  insert_refresh_token-done id user hash expires ip agent a e = ground arith

  pub insert_refresh_token-owned :
      (id user : Uuid) (hash : String) (expires : Instant) (ip agent : Option String) (a : Unit {0})
      → insert_refresh_token id user hash expires ip agent now d ≡ done a d'
      → any (λ u. u.id == user) d.users ≡ true
  unfolding insert_refresh_token
  insert_refresh_token-owned id user hash expires ip agent a e = ground arith

  pub revoke_token-done :
      (id : Uuid) (a : Unit {0})
      → revoke_token id now d ≡ done a d'
      → d' ≡ record d { refresh_tokens = update_by token_id id (revoked_now now) d.refresh_tokens }
  unfolding revoke_token
  revoke_token-done id a e = ground arith

  pub revoke_user_tokens-done :
      (user : Uuid) (a : Unit {0})
      → revoke_user_tokens user now d ≡ done a d'
      → d' ≡ record d {
        refresh_tokens = update_where (is_live_of user) (revoked_now now) d.refresh_tokens;
      }
  unfolding revoke_user_tokens
  revoke_user_tokens-done user a e = ground arith

  pub supersede_tokens-done :
      (p : Purpose) (user : Uuid) (a : Unit {0})
      → supersede_tokens p user now d ≡ done a d'
      → d' ≡ with_tokens p (update_where (is_unused_of user) (used_now now) (tokens p d)) d
  unfolding supersede_tokens
  supersede_tokens-done p user a e = cc

  pub insert_token-done :
      (p : Purpose) (id user : Uuid) (hash : String) (expires : Instant) (a : Unit {0})
      → insert_token p id user hash expires now d ≡ done a d'
      → (d' ≡ with_tokens p (tokens p d ++ new_one_time id user hash expires now ∷ []) d)
        × (any (λ t. t.id == id) (tokens p d) ≡ false)
        × (any (λ t. str_eq t.token_hash hash) (tokens p d) ≡ false)
  unfolding insert_token
  insert_token-done password_reset id user hash expires a e = ground arith
  insert_token-done email_verification id user hash expires a e = ground arith

  pub insert_token-owned :
      (p : Purpose) (id user : Uuid) (hash : String) (expires : Instant) (a : Unit {0})
      → insert_token p id user hash expires now d ≡ done a d'
      → any (λ u. u.id == user) d.users ≡ true
  unfolding insert_token
  insert_token-owned p id user hash expires a e = ground arith

  pub use_token-done :
      (p : Purpose) (id : Uuid) (a : Unit {0})
      → use_token p id now d ≡ done a d'
      → d' ≡ with_tokens p (update_by one_time_id id (used_now now) (tokens p d)) d
  unfolding use_token
  use_token-done p id a e = cc
