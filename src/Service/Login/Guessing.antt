-- ===== src/Service/Login/Guessing.antt =====
-- Account lockout over several logins: a guesser counts to the limit, and then meets the lock.
use rustpress_plugin_authpro.Base.{
  ℕ, suc, ◌+◌, ◌-◌, ◌*◌, ◌^◌, ◌<◌, ◌≡◌, refl, ap, ◌∙◌, String, str_eq, true, false, Option, none,
  some, arith, ◌==◌, lt→ltb, find_by, find_where-update, find-update_by, is_some, List, [], ◌∷◌,
  length, ◌≤◌,
}
use rustpress_plugin_authpro.Base.Int.{pos}
use rustpress_plugin_authpro.Error.{ok, err, account_locked}
use rustpress_plugin_authpro.Models.{Instant, User, is_active, is_locked}
use rustpress_plugin_authpro.Models.Requests.{LoginRequest}
use rustpress_plugin_authpro.Config.{AuthConfig}
use rustpress_plugin_authpro.Externals.{Externals}
use rustpress_plugin_authpro.Db.Users.{user_id, update_user, reaches_limit, count_failure}
use rustpress_plugin_authpro.Exec.{World}
use rustpress_plugin_authpro.Service.Password.{verify_password}
use rustpress_plugin_authpro.Service.Login.{login}
use rustpress_plugin_authpro.Service.Login.Lockout.{
  with_email, login-locked, counted, WrongPassword, login-wrong,
}

-- A login that somebody tries, from wherever.
pub record Guess : Type 0 where
  pub request : LoginRequest
  pub ip : Option String
  pub agent : Option String

module _ (x : Externals) (c : AuthConfig) where
  -- The world after logins, one after another.
  unfoldable pub attempts : List Guess → World → World
  attempts [] w = w
  attempts (g ∷ gs) w = attempts gs (login x c g.request g.ip g.agent w).1

  module _ (email hash : String) where
    -- The guesses are at this email, and each password is wrong for this hash.
    abbrev pub AllWrong : List Guess → Type 0
    AllWrong [] = Unit {0}
    AllWrong (g ∷ gs) =
        (g.request.email ≡ email)
        × (verify_password x c g.request.password hash ≡ ok false)
        × AllWrong gs

    -- An active account with that email and hash, whose lock has run out if it has one, where no
    -- statement fails.
    pub record Guessing (w : World) (u : User) : Type 0 where
      pub healthy : (n : ℕ) → x.db_fault n ≡ none
      pub by_email : with_email email w.db ≡ some u
      pub by_id : find_by user_id u.id w.db.users ≡ some u
      pub same_hash : u.password_hash ≡ hash
      pub unlocked : (n : ℕ) → w.step ≤ n → is_locked u (x.utc_now n) ≡ false
      pub is_live : is_active u.status ≡ true
      pub lockable : (now : Instant) → is_some (x.db_add_seconds now c.lockout_duration) ≡ true

    module _ (g : Guess) (w : World) (u : User) (a m : ℕ) (state : Guessing w u)
        (same_email : g.request.email ≡ email)
        (wrong : verify_password x c g.request.password hash ≡ ok false)
        (so_far : u.failed_login_attempts ≡ pos a) (limit : c.max_login_attempts ≡ pos m)
        (below : a < m) (fits : m < 2 ^ 31) where
      guess-WrongPassword : WrongPassword x c g.request g.ip g.agent w u
      guess-WrongPassword = record {
        healthy = state.healthy;
        by_email = rw same_email state.by_email;
        by_id = state.by_id;
        unlocked = state.unlocked (suc w.step) (omega arith);
        is_live = state.is_live;
        wrong = rw state.same_hash wrong;
        countable = rw so_far (ground arith);
        lockable = state.lockable;
      }

      abbrev next_row : User
      next_row = counted x c g.request g.ip g.agent w u

      abbrev next_world : World
      next_world = record {
        db = update_user u.id (counted x c g.request g.ip g.agent w) w.db;
        step = suc (suc (suc w.step));
      }

      next_by_email : with_email email next_world.db ≡ some next_row
      unfolding count_failure
      next_by_email = ground (
        arith,
        state.by_email,
        find_where-update (λ v. str_eq v.email email) (λ v. v.id == u.id)
            (counted x c g.request g.ip g.agent w) (λ v. refl) w.db.users,
      )

      next_by_id : find_by user_id u.id next_world.db.users ≡ some next_row
      unfolding count_failure
      next_by_id = ground (
        arith,
        state.by_id,
        find-update_by user_id u.id u.id (counted x c g.request g.ip g.agent w) (λ v. refl)
            w.db.users,
      )

      next_failed : next_row.failed_login_attempts ≡ pos (a + 1)
      unfolding count_failure
      next_failed = rw so_far

      -- The guess that reaches the limit sets the lock.
      next_lock :
          a + 1 ≡ m
          → next_row.locked_until
            ≡ x.db_add_seconds (x.db_now (suc (suc w.step))) c.lockout_duration
      unfolding count_failure reaches_limit
      next_lock e = rw (so_far, limit) (ground arith)

      next_same_lock : a + 1 < m → next_row.locked_until ≡ u.locked_until
      unfolding count_failure reaches_limit
      next_same_lock e = rw (so_far, limit) (ground arith)

      next_unlocked : a + 1 < m → (n : ℕ) → w.step ≤ n → is_locked next_row (x.utc_now n) ≡ false
      unfolding is_locked
      next_unlocked e n later = rw (next_same_lock e) (state.unlocked n later)

      guess_on : a + 1 < m → Guessing next_world next_row
      unfolding count_failure
      guess_on e = record {
        healthy = state.healthy;
        by_email = next_by_email;
        by_id = next_by_id;
        same_hash = state.same_hash;
        unlocked = λ n later. next_unlocked e n (omega (arith, later));
        is_live = state.is_live;
        lockable = state.lockable;
      }

      one_guess : (login x c g.request g.ip g.agent w).1 ≡ next_world
      one_guess = ap (λ r. r.1) (login-wrong x c g.request g.ip g.agent w u guess-WrongPassword)

    -- The row of the user after the last guess: its count is the limit, and it is locked until the
    -- end that Postgres computed at the last failure.
    abbrev pub LockedOut : World → List Guess → ℕ → User → Type 0
    LockedOut w gs m v =
        (with_email email (attempts gs w).db ≡ some v)
        × (v.failed_login_attempts ≡ pos m)
        × (v.locked_until
            ≡ x.db_add_seconds (x.db_now (w.step + 3 * length gs - 1)) c.lockout_duration)
        × ((attempts gs w).step ≡ w.step + 3 * length gs)

    -- After as many wrong passwords as the limit leaves, the account is locked: from a count of `a`,
    -- under a limit of `m`, the `m - a` guesses that follow count to `m` and set the lock to the
    -- configured duration after the last of them.
    pub lockout :
        (g : Guess) (gs : List Guess) (w : World) (u : User) (a m : ℕ)
        → Guessing w u
        → AllWrong (g ∷ gs)
        → u.failed_login_attempts ≡ pos a
        → c.max_login_attempts ≡ pos m
        → a + suc (length gs) ≡ m
        → m < 2 ^ 31
        → (v : User) × LockedOut w (g ∷ gs) m v
    unfolding attempts
    lockout g [] w u a m state (mine, wrong, _) so_far limit sum fits =
        let below : a < m = omega arith in
        let moved = one_guess g w u a m state mine wrong so_far limit below fits in
        let count : a + 1 ≡ m = omega arith in
        let last : w.step + 3 * 1 - 1 ≡ suc (suc w.step) = omega arith in
        (
          next_row g w u a m state mine wrong so_far limit below fits,
          (
            rw moved (next_by_email g w u a m state mine wrong so_far limit below fits),
            next_failed g w u a m state mine wrong so_far limit below fits ∙ ap pos count,
            rw last (next_lock g w u a m state mine wrong so_far limit below fits count),
            rw moved (omega arith),
          ),
        )
    lockout g (next ∷ gs) w u a m state (mine, wrong, rest) so_far limit sum fits =
        let below : a < m = omega arith in
        let more : a + 1 < m = omega arith in
        let moved = one_guess g w u a m state mine wrong so_far limit below fits in
        let (v, (found, count, end, steps)) =
          lockout next gs (next_world g w u a m state mine wrong so_far limit below fits)
            (next_row g w u a m state mine wrong so_far limit below fits) (a + 1) m
            (guess_on g w u a m state mine wrong so_far limit below fits more) rest
            (next_failed g w u a m state mine wrong so_far limit below fits) limit (omega arith)
            fits in
        let last : suc (suc (suc w.step)) + 3 * suc (length gs) - 1
            ≡ w.step + 3 * suc (suc (length gs)) - 1 =
          omega arith in
        let onward = ap (attempts (next ∷ gs)) moved in
        (
          v,
          (
            ap (λ s. with_email email s.db) onward ∙ found,
            count,
            rw last at end,
            ap (λ s. s.step) onward ∙ steps ∙ omega arith,
          ),
        )

    -- An account under guesses that reach the limit refuses the login that comes next with its email.
    -- The guesses come one after another, from any clients, each with the account's email and a wrong
    -- password, from a row whose lock, if it has one, has run out. The login is refused by
    -- AccountLocked whatever the password, the right one included, where the clock of the server
    -- stands before the end of the lock that the last guess set.
    pub lockout_holds :
        (g : Guess) (gs : List Guess) (w : World) (u : User) (a m : ℕ)
        → Guessing w u
        → AllWrong (g ∷ gs)
        → u.failed_login_attempts ≡ pos a
        → c.max_login_attempts ≡ pos m
        → a + suc (length gs) ≡ m
        → m < 2 ^ 31
        → (end : Instant) (req : LoginRequest) (ip agent : Option String) → req.email ≡ email
        → x.db_add_seconds (x.db_now (w.step + 3 * suc (length gs) - 1)) c.lockout_duration
          ≡ some end
        → x.utc_now (suc (w.step + 3 * suc (length gs))) < end
        → (login x c req ip agent (attempts (g ∷ gs) w)).0 ≡ err account_locked
    unfolding is_locked
    lockout_holds g gs w u a m state wrong so_far limit sum fits end req ip agent same set early =
        let (v, (found, count, lock, steps)) =
          lockout g gs w u a m state wrong so_far limit sum fits in
        let at : is_locked v (x.utc_now (suc (attempts (g ∷ gs) w).step)) ≡ true =
          rw (lock ∙ set, steps) (lt→ltb _ _ early) in
        ap (λ r. r.0)
          (login-locked x c req ip agent (attempts (g ∷ gs) w) v (state.healthy _) (rw same found)
            at)
