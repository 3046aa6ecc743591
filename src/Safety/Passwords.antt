-- ===== src/Safety/Passwords.antt =====
-- What the column `password_hash` holds.
use rustpress_plugin_authpro.Base.{
  ◌≡◌, refl, ◌⊎◌, inl, inr, ◌∙◌, sym, subst, Option, none, some, List, find_by,
}
use rustpress_plugin_authpro.Models.{Uuid, User}
use rustpress_plugin_authpro.Config.{AuthConfig}
use rustpress_plugin_authpro.Db.{Db}
use rustpress_plugin_authpro.Externals.{Externals}
use rustpress_plugin_authpro.Db.Users.{user_id, count_failure}
use rustpress_plugin_authpro.Exec.{World}
use rustpress_plugin_authpro.Service.Password.Stored.{OfStrong}
use rustpress_plugin_authpro.Service.Calls.{Call, run}
use rustpress_plugin_authpro.Service.Calls.Statements.{Moves}
use rustpress_plugin_authpro.Service.Calls.Respects.{run-Moves}
use rustpress_plugin_authpro.Service.Calls.Tables.{users-StatementsKeep}
use rustpress_plugin_authpro.Service.Calls.PerUser.{UserKeeps, EachUser, each-UsersKeep}

module _ (x : Externals) (c : AuthConfig) where
  -- The hash after is the one before, or argon2's of a strong password.
  abbrev pub Hashed : Option User → Option User → Type 0
  Hashed o none = Unit {0}
  Hashed none (some v) = OfStrong x c v.password_hash
  Hashed (some u) (some v) = (v.password_hash ≡ u.password_hash) ⊎ OfStrong x c v.password_hash

  Hashed-refl : (o : Option User) → Hashed o o
  Hashed-refl none = tt
  Hashed-refl (some u) = inl refl

  Hashed-trans : (o p q : Option User) → Hashed o p → Hashed p q → Hashed o q
  Hashed-trans o p none h k = tt
  Hashed-trans none none (some w) h k = k
  Hashed-trans none (some v) (some w) h (inl e) = subst (OfStrong x c) (sym e) h
  Hashed-trans none (some v) (some w) h (inr s) = s
  Hashed-trans (some u) none (some w) h k = inr k
  Hashed-trans (some u) (some v) (some w) h (inr s) = inr s
  Hashed-trans (some u) (some v) (some w) (inl d) (inl e) = inl (e ∙ d)
  Hashed-trans (some u) (some v) (some w) (inr s) (inl e) = inr (subst (OfStrong x c) (sym e) s)

  hashes-keep : UserKeeps Hashed x c
  unfolding count_failure
  hashes-keep = record {
    same = Hashed-refl;
    next = Hashed-trans;
    inserts = λ id email hash name now strong. strong;
    fails = λ u now _. inl refl;
    succeeds = λ u ip now. inl refl;
    changes_password = λ u hash now strong. inr strong;
    verifies = λ u now. inl refl;
  }

  pub Moves-Hashed : (d d' : Db) → Moves x c d d' → EachUser Hashed d.users d'.users
  Moves-Hashed d d' m = m _ (users-StatementsKeep _ x c (each-UsersKeep hashes-keep))

  -- No weak password is ever stored, and none in the clear: whatever calls of the service are made,
  -- the hash of each user's row is the one that it held before them, or argon2 made it of a password
  -- that meets the policy.
  run-Hashed :
      (calls : List Call) (w : World) (id : Uuid)
      → Hashed (find_by user_id id w.db.users) (find_by user_id id (run x c calls w).db.users)
  run-Hashed calls w = Moves-Hashed w.db (run x c calls w).db (run-Moves x c calls w)
