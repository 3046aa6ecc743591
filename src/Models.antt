-- ===== src/Models.antt =====
-- models.rs: the database entities and their predicates, the request and response types, and the
-- claims of the two kinds of JWT. An instant is a native number of microseconds, the resolution of
-- Postgres; a UUID is its 128-bit number.
pub mod Roles
pub mod Requests
pub mod Claims
pub mod Responses
use Roles.{UserRole}
use rustpress_plugin_authpro.Base.{
  ℕ, String, Bool, true, false, not, ◌&&◌, Option, none, some, ltb, is_some, if◌then◌else◌,
}
use rustpress_plugin_authpro.Base.Int.{ℤ}

abbrev pub Uuid : Type 0
Uuid = ℕ

abbrev pub Instant : Type 0
Instant = ℕ

pub data UserStatus : Type 0 where
  pending active suspended deleted : UserStatus

-- `self.status == UserStatus::Active`
abbrev pub is_active : UserStatus → Bool
is_active pending = false
is_active active = true
is_active suspended = false
is_active deleted = false

pub record User : Type 0 where
  pub id : Uuid
  pub email : String
  pub password_hash : String
  pub name : String
  pub role : UserRole
  pub status : UserStatus
  pub avatar : Option String
  pub bio : Option String
  pub website : Option String
  pub email_verified_at : Option Instant
  pub last_login_at : Option Instant
  pub last_login_ip : Option String
  pub failed_login_attempts : ℤ
  pub locked_until : Option Instant
  pub password_changed_at : Instant
  pub created_at : Instant
  pub updated_at : Instant

abbrev locked_at : Option Instant → Instant → Bool
locked_at none now = false
locked_at (some locked_until) now = ltb now locked_until

-- `now` is what `Utc::now()` returns.
unfoldable pub is_locked : User → Instant → Bool
is_locked u now = locked_at u.locked_until now

unfoldable pub is_email_verified : User → Bool
is_email_verified u = is_some u.email_verified_at

unfoldable pub can_login : User → Instant → Bool
unfolding is_locked
can_login u now = is_active u.status && not (is_locked u now)

pub record RefreshToken : Type 0 where
  pub id : Uuid
  pub user_id : Uuid
  pub token_hash : String
  pub expires_at : Instant
  pub issued_at : Instant
  pub revoked_at : Option Instant
  pub replaced_by : Option Uuid
  pub user_agent : Option String
  pub ip_address : Option String
  pub created_at : Instant

unfoldable pub is_expired : RefreshToken → Instant → Bool
is_expired t now = ltb t.expires_at now

unfoldable pub is_revoked : RefreshToken → Bool
is_revoked t = is_some t.revoked_at

unfoldable pub is_valid : RefreshToken → Instant → Bool
unfolding is_expired is_revoked
is_valid t now = not (is_expired t now) && not (is_revoked t)

-- A row of password_reset_tokens or of email_verification_tokens, which have the same columns.
pub record OneTimeToken : Type 0 where
  pub id : Uuid
  pub user_id : Uuid
  pub token_hash : String
  pub expires_at : Instant
  pub used_at : Option Instant
  pub created_at : Instant
