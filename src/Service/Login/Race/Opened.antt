-- ===== src/Service/Login/Race/Opened.antt =====
-- A race of wrong passwords and the right one.
use rustpress_plugin_authpro.Base.{
  ℕ, suc, ◌+◌, ◌-◌, ◌*◌, ◌^◌, ◌<◌, ◌≤◌, ◌≡◌, refl, sym, ap, ◌∙◌, String, str_append, true, false,
  not, ◌&&◌, Option, none, some, List, ◌∷◌, length, arith, ==_refl, find_by, find-update_by,
}
use rustpress_plugin_authpro.Base.Int.{pos}
use rustpress_plugin_authpro.Error.{ok}
use rustpress_plugin_authpro.Models.{User, is_email_verified}
use rustpress_plugin_authpro.Models.Requests.{LoginRequest}
use rustpress_plugin_authpro.Config.{AuthConfig}
use rustpress_plugin_authpro.Externals.{Externals}
use rustpress_plugin_authpro.Db.Users.{user_id, logged_in}
use rustpress_plugin_authpro.Exec.{World, tick}
use rustpress_plugin_authpro.Exec.Stepping.{bind-of_returns}
use rustpress_plugin_authpro.Models.Responses.{AuthResponse, from_user}
use rustpress_plugin_authpro.Db.Users.{update_user}
use rustpress_plugin_authpro.Exec.{◌>>=◌}
use rustpress_plugin_authpro.Service.Account.{record_successful_login}
use rustpress_plugin_authpro.Service.Token.Issues.{
  AccessReady, generate_access_token-issues, RefreshReady, refresh_string, with_refresh_row,
  generate_refresh_token-issues,
}
use rustpress_plugin_authpro.Service.Password.{verify_password}
use rustpress_plugin_authpro.Service.Login.{open_session}
use rustpress_plugin_authpro.Service.Login.Branches.{record_success_lem}
use rustpress_plugin_authpro.Service.Login.Lockout.{with_email}
use rustpress_plugin_authpro.Service.Login.Race.Halves.{attend-right, admit-passes}
use rustpress_plugin_authpro.Service.Login.Race.Counted.{
  with_user, AllWrong, RaceReady, admit_each-passes, attended, attend_each-counts,
}
use rustpress_plugin_authpro.Service.Login.Race.{race}

module _ (x : Externals) (c : AuthConfig) (ip agent : Option String) (u : User) where
  -- The world after the wrong passwords, all counted, and the world when the right one is recorded.
  abbrev pub counted_world : List LoginRequest → World → World
  counted_world guesses w =
      attended x c ip agent u guesses
        (tick (tick (record w { step = w.step + 2 * length guesses })))

  abbrev pub recorded_world : World → World
  recorded_world w = record {
    db = update_user u.id (logged_in ip (x.db_now w.step)) w.db;
    step = suc w.step;
  }

  open_session-opens :
      (w : World) (access : String)
      → x.db_fault w.step ≡ none
      → AccessReady x c u (recorded_world w) access
      → (k : RefreshReady x c u.id ip (tick (tick (recorded_world w))))
      → (r : AuthResponse) × (open_session x c u ip agent w
          ≡ (ok r, with_refresh_row x c u.id k.exp ip agent (tick (tick (recorded_world w)))))
        × (r.access_token ≡ access)
  unfolding open_session record_successful_login ◌>>=◌
  open_session-opens w access healthy ready k = (
    record {
      user = from_user u;
      access_token = access;
      refresh_token =
          str_append k.jwt (str_append "." (refresh_string x c (tick (tick (recorded_world w)))));
      token_type = "Bearer";
      expires_in = c.access_token_expiration;
    },
    simp (
      healthy,
      record_success_lem x c w.db u.id ip (x.db_now w.step) k.ip_fits,
      generate_access_token-issues x c u (recorded_world w) access ready,
      generate_refresh_token-issues x c u.id ip agent (tick (tick (recorded_world w))) k,
    ),
    refl,
  )

  -- What a race of `n` failures and a right password comes to: the row when the right password is
  -- checked, at that step, and the answer and the row at the end.
  pub record RaceOpened (req : LoginRequest) (guesses : List LoginRequest) (w : World) (n : ℕ)
      (access : String) : Type 0 where
    pub before : World
    pub row : User
    pub found : find_by user_id u.id before.db.users ≡ some row
    pub failures : row.failed_login_attempts ≡ pos n
    pub locked : row.locked_until ≡ x.db_add_seconds (x.db_now (before.step - 1)) c.lockout_duration
    pub response : AuthResponse
    pub after : World
    pub answered : race x c ip agent guesses req w ≡ (ok response, after)
    pub access_token : response.access_token ≡ access
    pub last_row : User
    pub last_found : find_by user_id u.id after.db.users ≡ some last_row
    pub no_failures : last_row.failed_login_attempts ≡ pos 0
    pub no_lock : last_row.locked_until ≡ none

  -- The lock does not stop guesses made at once: where any number of requests with wrong passwords
  -- and one with the right password are admitted before the first password is checked, every wrong
  -- password is checked and counted, the row reaches the limit and is locked, and the right password
  -- is answered with tokens all the same, where they can be made and stored; the count and the lock
  -- are cleared then.
  pub race-opens :
      (guess : LoginRequest) (guesses : List LoginRequest) (req : LoginRequest) (w : World)
      (a m : ℕ) (access : String) (h : RaceReady x c ip agent u)
      → AllWrong x c ip agent u w.db (guess ∷ guesses)
      → with_email req.email w.db ≡ some u
      → find_by user_id u.id w.db.users ≡ some u
      → verify_password x c req.password u.password_hash ≡ ok true
      → (c.require_email_verification && not (is_email_verified u)) ≡ false
      → u.failed_login_attempts ≡ pos a
      → c.max_login_attempts ≡ pos m
      → m ≤ a + suc (length guesses)
      → a + suc (length guesses) < 2 ^ 31
      → AccessReady x c u (recorded_world (counted_world (guess ∷ guesses) w)) access
      → RefreshReady x c u.id ip (tick (tick (recorded_world (counted_world (guess ∷ guesses) w))))
      → RaceOpened req (guess ∷ guesses) w (a + suc (length guesses)) access
  unfolding race
  race-opens guess guesses req w a m access h wrong by_email by_id right confirmed so_far limit
        reached fits access_ready refresh_ready =
      let k : ℕ = suc (length guesses) in
      let admitted : World = record w { step = w.step + 2 * k } in
      let counted =
        attend_each-counts x c ip agent u h guess guesses w.db (tick (tick admitted)) u a m wrong
          by_id so_far limit fits in
      let before : World = counted_world (guess ∷ guesses) w in
      let opened : race x c ip agent (guess ∷ guesses) req w ≡ open_session x c u ip agent before =
        bind-of_returns _ _ w admitted (with_user x c ip agent u (guess ∷ guesses))
          (admit_each-passes x c ip agent u h (guess ∷ guesses) w wrong)
        ∙ bind-of_returns _ _ admitted (tick (tick admitted)) u
            (admit-passes x c ip agent req u admitted (h.healthy _) by_email h.no_lock h.is_live)
        ∙ bind-of_returns _ _ (tick (tick admitted)) before tt refl
        ∙ attend-right x c ip agent req u before right confirmed in
      let (r, answered, issued) =
        open_session-opens before access (h.healthy _) access_ready refresh_ready in
      record {
        before = before;
        row = counted.row;
        found = counted.found;
        failures = counted.failures;
        locked =
            counted.locked reached
            ∙ ap (λ n. x.db_add_seconds (x.db_now (n - 1)) c.lockout_duration) (sym counted.steps);
        response = r;
        after =
            with_refresh_row x c u.id refresh_ready.exp ip agent
              (tick (tick (recorded_world before)));
        answered = opened ∙ answered;
        access_token = issued;
        last_row = logged_in ip (x.db_now before.step) counted.row;
        last_found =
            rw
              (find-update_by user_id u.id u.id (logged_in ip (x.db_now before.step)) (λ v. refl)
                before.db.users)
              (ground (arith, counted.found, ==_refl u.id));
        no_failures = refl;
        no_lock = refl;
      }
