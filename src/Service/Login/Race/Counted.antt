-- ===== src/Service/Login/Race/Counted.antt =====
-- The requests of a race: the admission of all, and the failures that are counted after it.
use rustpress_plugin_authpro.Base.{
  ℕ, suc, ◌+◌, ◌-◌, ◌*◌, ◌^◌, ◌<◌, ◌≤◌, ◌≡◌, refl, ap, ◌∙◌, String, true, false, Option, none, some,
  List, [], ◌∷◌, length, arith, ==_refl, find_by, find-update_by, is_some,
}
use rustpress_plugin_authpro.Base.Int.{pos}
use rustpress_plugin_authpro.Error.{ok}
use rustpress_plugin_authpro.Models.{Instant, User, is_active}
use rustpress_plugin_authpro.Models.Requests.{LoginRequest}
use rustpress_plugin_authpro.Config.{AuthConfig}
use rustpress_plugin_authpro.Externals.{Externals}
use rustpress_plugin_authpro.Db.{Db}
use rustpress_plugin_authpro.Db.Users.{user_id, reaches_limit, count_failure}
use rustpress_plugin_authpro.Exec.{World, pure, tick}
use rustpress_plugin_authpro.Exec.Stepping.{bind-of_returns}
use rustpress_plugin_authpro.Service.Password.{verify_password}
use rustpress_plugin_authpro.Service.Login.Lockout.{with_email}
use rustpress_plugin_authpro.Service.Login.Race.{attend, admit_each, attend_each}
use rustpress_plugin_authpro.Service.Login.Race.Halves.{attend-wrong, admit-passes}

module _ (x : Externals) (c : AuthConfig) (ip agent : Option String) where
  module _ (u : User) where
    -- Requests for one account.
    abbrev pub with_user : List LoginRequest → List (LoginRequest × User)
    with_user [] = []
    with_user (req ∷ reqs) = (req, u) ∷ with_user reqs

    -- Each request finds the user, and brings a wrong password.
    abbrev pub AllWrong : Db → List LoginRequest → Type 0
    AllWrong d [] = Unit {0}
    AllWrong d (req ∷ reqs) =
        (with_email req.email d ≡ some u)
        × (verify_password x c req.password u.password_hash ≡ ok false)
        × AllWrong d reqs

    -- No statement fails, the account is active, and it has no lock.
    pub record RaceReady : Type 0 where
      pub healthy : (n : ℕ) → x.db_fault n ≡ none
      pub no_lock : u.locked_until ≡ none
      pub is_live : is_active u.status ≡ true
      pub lockable : (now : Instant) → is_some (x.db_add_seconds now c.lockout_duration) ≡ true

    pub row_after : World → User → User
    row_after w =
        count_failure c.max_login_attempts (x.db_add_seconds (x.db_now w.step) c.lockout_duration)
          (x.db_now w.step)

    abbrev pub attended : List LoginRequest → World → World
    attended reqs w = attend_each x c ip agent (with_user reqs) w

    -- The row of the user after `k` wrong passwords, the last of which was counted at the step
    -- before the end.
    pub record Counted (n m k : ℕ) (w w' : World) : Type 0 where
      pub row : User
      pub found : find_by user_id u.id w'.db.users ≡ some row
      pub failures : row.failed_login_attempts ≡ pos n
      pub steps : w'.step ≡ w.step + k
      pub locked :
          m ≤ n → row.locked_until ≡ x.db_add_seconds (x.db_now (w.step + k - 1)) c.lockout_duration

    module _ (h : RaceReady) where
      pub admit_each-passes :
          (reqs : List LoginRequest) (w : World)
          → AllWrong w.db reqs
          → admit_each x c reqs w
            ≡ (ok (with_user reqs), record w { step = w.step + 2 * length reqs })
      unfolding admit_each pure
      admit_each-passes [] w wrong = let same : w.step + 0 ≡ w.step = omega arith in rw same refl
      admit_each-passes (req ∷ reqs) w (found, _, wrong) =
          let moved : suc (suc w.step) + 2 * length reqs ≡ w.step + 2 * suc (length reqs) =
            omega arith in
          bind-of_returns _ _ w _ u
            (admit-passes x c ip agent req u w (h.healthy w.step) found h.no_lock h.is_live)
          ∙ bind-of_returns _ _ _ _ (with_user reqs) (admit_each-passes reqs (tick (tick w)) wrong)
          ∙ rw moved refl

      attend-counts :
          (req : LoginRequest) (w : World) (v : User) (b : ℕ)
          → verify_password x c req.password u.password_hash ≡ ok false
          → find_by user_id u.id w.db.users ≡ some v
          → v.failed_login_attempts ≡ pos b
          → b + 1 < 2 ^ 31
          → (find_by user_id u.id (attend x c ip agent req u w).1.db.users ≡ some (row_after w v))
            × ((row_after w v).failed_login_attempts ≡ pos (b + 1))
            × ((attend x c ip agent req u w).1.step ≡ suc w.step)
      unfolding row_after count_failure
      attend-counts req w v b wrong found so_far fits =
          let moved =
            ap (λ r. r.1)
              (attend-wrong x c ip agent req u v w (h.healthy w.step) found wrong
                (rw so_far (ground arith)) (h.lockable (x.db_now w.step))) in
          (
            ap (λ w. find_by user_id u.id w.db.users) moved
                ∙ ground (
                  arith,
                  found,
                  find-update_by user_id u.id u.id (row_after w) (λ v. refl) w.db.users,
                  ==_refl u.id,
                ),
            rw so_far,
            ap (λ w. w.step) moved,
          )

      row_after-locked :
          (w : World) (v : User) (b m : ℕ)
          → v.failed_login_attempts ≡ pos b
          → c.max_login_attempts ≡ pos m
          → m ≤ b + 1
          → (row_after w v).locked_until ≡ x.db_add_seconds (x.db_now w.step) c.lockout_duration
      unfolding row_after count_failure reaches_limit
      row_after-locked w v b m so_far limit reached = rw (so_far, limit) (ground arith)

      pub attend_each-counts :
          (req : LoginRequest) (reqs : List LoginRequest) (d : Db) (w : World) (v : User) (b m : ℕ)
          → AllWrong d (req ∷ reqs)
          → find_by user_id u.id w.db.users ≡ some v
          → v.failed_login_attempts ≡ pos b
          → c.max_login_attempts ≡ pos m
          → b + suc (length reqs) < 2 ^ 31
          → Counted (b + suc (length reqs)) m (suc (length reqs)) w (attended (req ∷ reqs) w)
      unfolding attend_each
      attend_each-counts req [] d w v b m (_, wrong, _) found so_far limit fits =
          let (now_found, counted, step) = attend-counts req w v b wrong found so_far fits in
          record {
            row = row_after w v;
            found = now_found;
            failures = counted;
            steps = step ∙ omega arith;
            locked = λ reached.
                let same : w.step + 1 - 1 ≡ w.step = omega arith in
                rw same (row_after-locked w v b m so_far limit reached);
          }
      attend_each-counts req (next ∷ reqs) d w v b m (_, wrong, rest) found so_far limit fits =
          let (now_found, counted, step) =
            attend-counts req w v b wrong found so_far (omega arith) in
          let sum : b + 1 + suc (length reqs) ≡ b + suc (suc (length reqs)) = omega arith in
          let steps : suc w.step + suc (length reqs) ≡ w.step + suc (suc (length reqs)) =
            omega arith in
          let last : suc w.step + suc (length reqs) - 1 ≡ w.step + suc (suc (length reqs)) - 1 =
            omega arith in
          let after =
            attend_each-counts next reqs d (attend x c ip agent req u w).1 (row_after w v) (b + 1) m
              rest now_found counted limit (omega arith) in
          record {
            row = after.row;
            found = after.found;
            failures = after.failures ∙ ap pos sum;
            steps = after.steps ∙ ap (λ n. n + suc (length reqs)) step ∙ steps;
            locked = λ reached.
                after.locked (omega arith)
                ∙ ap
                    (λ n.
                      x.db_add_seconds (x.db_now (n + suc (length reqs) - 1)) c.lockout_duration)
                    step
                ∙ ap (λ n. x.db_add_seconds (x.db_now n) c.lockout_duration) last;
          }
