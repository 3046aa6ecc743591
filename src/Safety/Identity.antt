-- ===== src/Safety/Identity.antt =====
-- Accounts (the table `users`): no call removes one, nor changes its email, name, role or creation.
use rustpress_plugin_authpro.Base.{◌≡◌, refl, Option, none, some, List, arith}
use rustpress_plugin_authpro.Models.{User}
use rustpress_plugin_authpro.Db.Users.{count_failure}
use rustpress_plugin_authpro.Config.{AuthConfig}
use rustpress_plugin_authpro.Db.{Db}
use rustpress_plugin_authpro.Externals.{Externals}
use rustpress_plugin_authpro.Exec.{World}
use rustpress_plugin_authpro.Service.Calls.{Call, run}
use rustpress_plugin_authpro.Service.Calls.Statements.{Moves}
use rustpress_plugin_authpro.Service.Calls.Respects.{run-Moves}
use rustpress_plugin_authpro.Service.Calls.Tables.{users-StatementsKeep}
use rustpress_plugin_authpro.Service.Calls.PerUser.{UserKeeps, EachUser, each-UsersKeep}

-- The second row is that of the same person, if the first is there.
abbrev pub SameAccount : Option User → Option User → Type 0
SameAccount none v = Unit {0}
SameAccount (some u) none = ⊥
SameAccount (some u) (some v) =
    (v.id ≡ u.id)
    × (v.email ≡ u.email)
    × (v.name ≡ u.name)
    × (v.role ≡ u.role)
    × (v.created_at ≡ u.created_at)

SameAccount-refl : (o : Option User) → SameAccount o o
SameAccount-refl none = tt
SameAccount-refl (some u) = (refl, refl, refl, refl, refl)

SameAccount-trans : (o p q : Option User) → SameAccount o p → SameAccount p q → SameAccount o q
SameAccount-trans none p q h k = tt
SameAccount-trans (some u) (some v) (some w) h k = ground arith
SameAccount-trans (some u) (some v) none h k = absurd k
SameAccount-trans (some u) none q h k = absurd h

accounts-keep : (x : Externals) (c : AuthConfig) → UserKeeps SameAccount x c
unfolding count_failure
accounts-keep x c = record {
  same = SameAccount-refl;
  next = SameAccount-trans;
  inserts = λ id email hash name now _. tt;
  fails = λ u now _. (refl, refl, refl, refl, refl);
  succeeds = λ u ip now. (refl, refl, refl, refl, refl);
  changes_password = λ u hash now _. (refl, refl, refl, refl, refl);
  verifies = λ u now. (refl, refl, refl, refl, refl);
}

abbrev pub SameAccounts : List User → List User → Type 0
SameAccounts = EachUser SameAccount

pub Moves-SameAccounts :
    (x : Externals) (c : AuthConfig) (d d' : Db) → Moves x c d d' → SameAccounts d.users d'.users
Moves-SameAccounts x c d d' m =
    m _ (users-StatementsKeep _ x c (each-UsersKeep (accounts-keep x c)))

module _ (x : Externals) (c : AuthConfig) where
  -- Whatever calls of the service are made, every user stays, with the same email, name, role and
  -- time of creation: no call escalates a role, hands an account over or deletes one.
  accounts_kept :
      (calls : List Call) (w : World) → SameAccounts w.db.users (run x c calls w).db.users
  accounts_kept calls w = Moves-SameAccounts x c w.db (run x c calls w).db (run-Moves x c calls w)
