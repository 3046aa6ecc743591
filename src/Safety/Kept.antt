-- ===== src/Safety/Kept.antt =====
-- All that no statement of service.rs can break, in one place.
use rustpress_plugin_authpro.Base.{◌≡◌, true, find_by}
use rustpress_plugin_authpro.Models.{Uuid}
use rustpress_plugin_authpro.Config.{AuthConfig}
use rustpress_plugin_authpro.Externals.{Externals}
use rustpress_plugin_authpro.Db.{Db}
use rustpress_plugin_authpro.Db.Users.{user_id}
use rustpress_plugin_authpro.Service.Calls.Statements.{Moves}
use rustpress_plugin_authpro.Service.Calls.PerUser.{EachUser}
use rustpress_plugin_authpro.Safety.Identity.{SameAccounts, Moves-SameAccounts}
use rustpress_plugin_authpro.Safety.Passwords.{Hashed, Moves-Hashed}
use rustpress_plugin_authpro.Safety.Attempts.{is_counted, Moves-counted}
use rustpress_plugin_authpro.Safety.Sessions.{Steps}
use rustpress_plugin_authpro.Safety.Sessions.Rows.{sessions, Moves-Steps}
use rustpress_plugin_authpro.Safety.Schema.{ObeysKeys, Moves-ObeysKeys}

-- The tables obey their keys, and each count of failures lies between 0 and the greatest INTEGER.
pub record IsSound (d : Db) : Type 0 where
  pub keys : ObeysKeys d
  pub counts : (id : Uuid) → is_counted (find_by user_id id d.users) ≡ true

module _ (x : Externals) (c : AuthConfig) where
  -- Every user stays the same; each stored hash is the one from before, or argon2's of a password
  -- that meets the policy; sessions are opened under free identifiers and ended, and do nothing
  -- else; and the later tables are sound.
  pub record Kept (d d' : Db) : Type 0 where
    pub accounts : SameAccounts d.users d'.users
    pub hashes : EachUser (Hashed x c) d.users d'.users
    pub store : Steps (sessions d.refresh_tokens) (sessions d'.refresh_tokens)
    pub sound : IsSound d'

  pub Moves-Kept : (d d' : Db) → Moves x c d d' → IsSound d → Kept d d'
  Moves-Kept d d' m h = record {
    accounts = Moves-SameAccounts x c d d' m;
    hashes = Moves-Hashed x c d d' m;
    store = Moves-Steps x c d d' m;
    sound = record {
      keys = Moves-ObeysKeys x c d d' m h.keys;
      counts = λ id. Moves-counted x c d d' id m (h.counts id);
    };
  }
