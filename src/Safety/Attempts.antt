-- ===== src/Safety/Attempts.antt =====
-- What the column `failed_login_attempts` holds.
use rustpress_plugin_authpro.Base.{◌≡◌, true, Bool, ◌&&◌, Option, none, some, List, find_by, arith}
use rustpress_plugin_authpro.Base.Int.{ℤ, pos, negsuc, suc_ℤ, leb_ℤ, i32_max}
use rustpress_plugin_authpro.Models.{Uuid, User}
use rustpress_plugin_authpro.Config.{AuthConfig}
use rustpress_plugin_authpro.Db.{Db}
use rustpress_plugin_authpro.Externals.{Externals}
use rustpress_plugin_authpro.Db.Users.{user_id, count_failure}
use rustpress_plugin_authpro.Exec.{World}
use rustpress_plugin_authpro.Service.Calls.{Call, run}
use rustpress_plugin_authpro.Service.Calls.Statements.{Moves}
use rustpress_plugin_authpro.Service.Calls.Respects.{run-Moves}
use rustpress_plugin_authpro.Service.Calls.Tables.{users-StatementsKeep}
use rustpress_plugin_authpro.Service.Calls.PerUser.{UserKeeps, each-UsersKeep}

-- The count lies between 0 and the greatest INTEGER.
abbrev pub is_counted : Option User → Bool
is_counted none = true
is_counted (some u) = leb_ℤ (pos 0) u.failed_login_attempts && leb_ℤ u.failed_login_attempts i32_max

and_left : (p q : Bool) → (p && q) ≡ true → p ≡ true
and_left p q h = ground arith

suc_nonnegative : (a : ℤ) → leb_ℤ (pos 0) a ≡ true → leb_ℤ (pos 0) (suc_ℤ a) ≡ true
suc_nonnegative (pos n) h = ground arith
suc_nonnegative (negsuc n) h = ground arith

first : (a : ℤ) → (leb_ℤ (pos 0) a && leb_ℤ a i32_max) ≡ true → leb_ℤ (pos 0) a ≡ true
first a h = and_left (leb_ℤ (pos 0) a) (leb_ℤ a i32_max) h

both :
    (a : ℤ)
    → leb_ℤ (pos 0) a ≡ true
    → leb_ℤ a i32_max ≡ true
    → (leb_ℤ (pos 0) a && leb_ℤ a i32_max) ≡ true
both a h k = rw (h, k)

module _ (x : Externals) (c : AuthConfig) where
  counts-keep : UserKeeps (λ o p. is_counted o ≡ true → is_counted p ≡ true) x c
  unfolding count_failure
  counts-keep = record {
    same = λ o h. h;
    next = λ o p q f g h. g (f h);
    inserts = λ id email hash name now _ h. ground arith;
    fails = λ u now counted h.
        both (suc_ℤ u.failed_login_attempts)
          (suc_nonnegative u.failed_login_attempts (first u.failed_login_attempts h)) counted;
    succeeds = λ u ip now h. ground arith;
    changes_password = λ u hash now _ h. h;
    verifies = λ u now h. h;
  }

  pub Moves-counted :
      (d d' : Db) (id : Uuid)
      → Moves x c d d'
      → is_counted (find_by user_id id d.users) ≡ true
      → is_counted (find_by user_id id d'.users) ≡ true
  Moves-counted d d' id m = m _ (users-StatementsKeep _ x c (each-UsersKeep counts-keep)) id

  -- The count of failures stays between 0 and 2 ^ 31 - 1 on each row, whatever calls of the service
  -- are made.
  run-counted :
      (calls : List Call) (w : World) (id : Uuid)
      → is_counted (find_by user_id id w.db.users) ≡ true
      → is_counted (find_by user_id id (run x c calls w).db.users) ≡ true
  run-counted calls w id = Moves-counted w.db (run x c calls w).db id (run-Moves x c calls w)
