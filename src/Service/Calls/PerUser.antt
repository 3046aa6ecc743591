-- ===== src/Service/Calls/PerUser.antt =====
-- A preorder on one user's row, before and after, that the statements keep, as one on the table.
use mathlib.Core.Option
use rustpress_plugin_authpro.Base.{
  ◌≡◌, refl, Bool, true, false, String, Option, none, some, List, [], ◌∷◌, ◌++◌, arith, ◌==◌, inl,
  inr, Bool-cases, if◌then◌else◌, find_by, update_by, find-update_by, find_by-append,
}
use rustpress_plugin_authpro.Base.Int.{suc_ℤ, leb_ℤ, i32_max}
use rustpress_plugin_authpro.Models.{Uuid, Instant, User}
use rustpress_plugin_authpro.Config.{AuthConfig}
use rustpress_plugin_authpro.Externals.{Externals}
use rustpress_plugin_authpro.Service.Password.Stored.{OfStrong}
use rustpress_plugin_authpro.Db.Users.{
  user_id, new_user, count_failure, logged_in, with_password, verified,
}
use rustpress_plugin_authpro.Service.Calls.Tables.{UsersKeep}

pub record UserKeeps (P : Option User → Option User → Type 0) (x : Externals) (c : AuthConfig)
    : Type 0 where
  pub same : (o : Option User) → P o o
  pub next : (o p q : Option User) → P o p → P p q → P o q
  pub inserts :
      (id : Uuid) (email hash name : String) (now : Instant)
      → OfStrong x c hash
      → P none (some (new_user id email hash name now))
  pub fails :
      (u : User) (now : Instant)
      → leb_ℤ (suc_ℤ u.failed_login_attempts) i32_max ≡ true
      → P (some u) (
          some (count_failure c.max_login_attempts (x.db_add_seconds now c.lockout_duration) now u))
  pub succeeds :
      (u : User) (ip : Option String) (now : Instant) → P (some u) (some (logged_in ip now u))
  pub changes_password :
      (u : User) (hash : String) (now : Instant)
      → OfStrong x c hash
      → P (some u) (some (with_password hash now u))
  pub verifies : (u : User) (now : Instant) → P (some u) (some (verified now u))

-- What becomes of each user.
abbrev pub EachUser : (Option User → Option User → Type 0) → List User → List User → Type 0
EachUser P us vs = (id : Uuid) → P (find_by user_id id us) (find_by user_id id vs)

module _ {P : Option User → Option User → Type 0} {x : Externals} {c : AuthConfig}
    (k : UserKeeps P x c) where
  updated :
      (id : Uuid) (f : User → User)
      → ((u : User) → (f u).id ≡ u.id)
      → (us : List User) → ((u : User) → find_by user_id id us ≡ some u → P (some u) (some (f u)))
      → EachUser P us (update_by user_id id f us)
  updated id f same us keep j =
      rw (find-update_by user_id j id f same us) (elim (Bool-cases (id == j)) [
        | inl hit ↦ let e : id ≡ j = ground arith in rw hit (here j e (find_by user_id j us) refl)
        | inr miss ↦ rw miss (k.same (find_by user_id j us))
      ])
    where
      here :
          (j : Uuid) → id ≡ j → (o : Option User) → find_by user_id j us ≡ o → P o (Option.map f o)
      here j e none found = k.same none
      here j e (some u) found = keep u (rw e found)

  appended : (us : List User) (u : User) → P none (some u) → EachUser P us (us ++ u ∷ [])
  appended us u fresh j =
      rw (find_by-append user_id j us (u ∷ [])) (joined (find_by user_id j us) refl)
    where
      joined :
          (o : Option User)
          → find_by user_id j us ≡ o
          → P o (elim o [ none ↦ find_by user_id j (u ∷ []) | some v ↦ some v ])
      joined (some v) found = k.same (some v)
      joined none found = one (u.id == j)
        where
          one : (b : Bool) → P none (if b then some u else none)
          one true = fresh
          one false = k.same none

  pub each-UsersKeep : UsersKeep (EachUser P) x c
  unfolding count_failure
  each-UsersKeep = record {
    same = λ us id. k.same (find_by user_id id us);
    next = λ us vs ws f g id. k.next _ _ _ (f id) (g id);
    inserts = λ us id email hash name now strong _ _.
        appended us (new_user id email hash name now) (k.inserts id email hash name now strong);
    fails = λ us id now counted.
        updated id _ (λ u. refl) us (λ u found. k.fails u now (counted u found));
    succeeds =
        λ us id ip now. updated id (logged_in ip now) (λ u. refl) us (λ u _. k.succeeds u ip now);
    changes_password = λ us id hash now strong.
        updated id (with_password hash now) (λ u. refl) us
          (λ u _. k.changes_password u hash now strong);
    verifies = λ us id now. updated id (verified now) (λ u. refl) us (λ u _. k.verifies u now);
  }
