-- ===== src/Db.antt =====
-- The tables that the plugin's migrations create (lib.rs), and the type of a statement's answer:
-- its rows and the new tables, or an SQL error, which leaves the tables as they were.
pub mod Users
pub mod RefreshTokens
pub mod OneTimeTokens
pub mod Effects
pub mod Changes
use Prim.Native.String.{count}
use rustpress_plugin_authpro.Base.{
  ℕ, String, Bool, true, Option, none, some, List, leb, if◌then◌else◌,
}
use rustpress_plugin_authpro.Models.{User, RefreshToken, OneTimeToken}

pub record Db : Type 0 where
  pub users : List User
  pub refresh_tokens : List RefreshToken
  pub password_reset_tokens : List OneTimeToken
  pub email_verification_tokens : List OneTimeToken

pub data Sql (A : Type 0) : Type 0 where
  done : A → Db → Sql A
  fail : String → Sql A

-- A constraint of the table: the rest of the statement runs if it holds.
abbrev pub require : {A : Type 0} → Bool → String → Sql A → Sql A
require ok message rest = if ok then rest else fail message

-- VARCHAR(n). Postgres cuts what is too long by spaces at the end alone; here a text that is too long
-- is refused. The addresses come trimmed from the headers, and the hashes have no spaces.
abbrev pub fits : ℕ → String → Bool
fits n s = leb (count s) n

abbrev pub fits? : ℕ → Option String → Bool
fits? n none = true
fits? n (some s) = fits n s
