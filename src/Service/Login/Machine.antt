-- ===== src/Service/Login/Machine.antt =====
-- The lockout of an account as a machine of its own, apart from the tables and the tokens: a count
-- of failures and the end of a lock, and what an attempt to log in does to them.
use rustpress_plugin_authpro.Base.{
  Bool, true, false, not, ◌&&◌, ◌||◌, is_some, Option, none, some, ltb, List, [], ◌∷◌,
  if◌then◌else◌,
}
use rustpress_plugin_authpro.Base.Int.{ℤ, pos, suc_ℤ, leb_ℤ, i32_max}
use rustpress_plugin_authpro.Error.{Outcome, ok, err, panic}
use rustpress_plugin_authpro.Models.{Instant, User}

pub record Account : Type 0 where
  pub failures : ℤ
  pub locked_until : Option Instant

-- The part of a user's row that the machine is about.
abbrev pub account : User → Account
account u = record { failures = u.failed_login_attempts; locked_until = u.locked_until }

-- An attempt is turned away and leaves no trace, or it brings a wrong password, or it is let in.
pub data Attempt : Type 0 where
  turned_away wrong_password let_in : Attempt

abbrev shut_until : Option Instant → Instant → Bool
shut_until none now = false
shut_until (some end) now = ltb now end

abbrev pub is_shut : Account → Instant → Bool
is_shut a now = shut_until a.locked_until now

-- A password was checked; the email is confirmed where it has to be, and the client's address fits.
abbrev pub verdict : Outcome Bool → Bool → Attempt
verdict (ok true) true = let_in
verdict (ok true) false = turned_away
verdict (ok false) confirmed = wrong_password
verdict (err e) confirmed = turned_away
verdict (panic m) confirmed = turned_away

-- The password counts for nothing while the account is shut or not active.
abbrev pub judge : Bool → Bool → Outcome Bool → Bool → Attempt
judge true live checked confirmed = turned_away
judge false false checked confirmed = turned_away
judge false true checked confirmed = verdict checked confirmed

-- The count, and the lock that the limit brings, can be written.
abbrev pub is_writable : ℤ → Option Instant → Account → Bool
is_writable max lock_end a =
    leb_ℤ (suc_ℤ a.failures) i32_max && (not (leb_ℤ max (suc_ℤ a.failures)) || is_some lock_end)

-- A failure that brings the count to the limit shuts the account until `lock_end`.
abbrev pub step : ℤ → Option Instant → Attempt → Account → Account
step max lock_end turned_away a = a
step max lock_end wrong_password a =
    if is_writable max lock_end a
    then record {
      failures = suc_ℤ a.failures;
      locked_until = if leb_ℤ max (suc_ℤ a.failures) then lock_end else a.locked_until;
    }
    else a
step max lock_end let_in a = record { failures = pos 0; locked_until = none }

-- What an attempt brings: the time, what the checks make of it, and when a lock would end.
pub record Knock : Type 0 where
  pub now : Instant
  pub live : Bool
  pub checked : Outcome Bool
  pub admissible : Bool
  pub lock_end : Option Instant

abbrev pub knock : ℤ → Knock → Account → Account
knock max k a = step max k.lock_end (judge (is_shut a k.now) k.live k.checked k.admissible) a

-- The machine, over attempts one after another.
abbrev pub knocks : ℤ → List Knock → Account → Account
knocks max [] a = a
knocks max (k ∷ ks) a = knocks max ks (knock max k a)
