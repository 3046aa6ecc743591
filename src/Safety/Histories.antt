-- ===== src/Safety/Histories.antt =====
-- What no statements can break, in whatever order they come.
use rustpress_plugin_authpro.Config.{AuthConfig}
use rustpress_plugin_authpro.Externals.{Externals}
use rustpress_plugin_authpro.Db.{Db}
use rustpress_plugin_authpro.Service.Calls.Histories.{History, execute_all, execute_all-Moves}
use rustpress_plugin_authpro.Safety.Kept.{IsSound, Kept, Moves-Kept}

module _ (x : Externals) (c : AuthConfig) where
  -- Whatever statements of the code that write are executed, in whatever order, at whatever times and
  -- with whatever values, where the hashes are argon2's of passwords that meet the policy: from tables
  -- that obey their keys and counts in their column's bounds, every user stays, with the same email,
  -- name, role and time of creation; each stored hash is the one from before, or one of those hashes;
  -- sessions are opened under free identifiers and ended, and never come back or change hands; and
  -- the keys and the bounds hold after them.
  pub execute_all-Kept : (h : History x c) (d : Db) → IsSound d → Kept x c d (execute_all x c h d)
  execute_all-Kept h d = Moves-Kept x c d (execute_all x c h d) (execute_all-Moves x c h d)
