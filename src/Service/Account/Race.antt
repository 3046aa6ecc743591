-- ===== src/Service/Account/Race.antt =====
-- Two registrations at once with one email. `register` runs no transaction: other requests come
-- between its SELECT of the email and its INSERT.
use rustpress_plugin_authpro.Base.{
  ℕ, suc, ◌≡◌, refl, ◌∙◌, String, str_eq, eq_refl, true, false, none, [], ◌∷◌, ◌++◌, ◌==◌, any,
  any-append, find_where-none, is_some, arith,
}
use rustpress_plugin_authpro.Error.{ok, err, database, email_exists}
use rustpress_plugin_authpro.Models.{User}
use rustpress_plugin_authpro.Models.Requests.{RegisterRequest}
use rustpress_plugin_authpro.Config.{AuthConfig}
use rustpress_plugin_authpro.Externals.{Externals}
use rustpress_plugin_authpro.Db.{fits}
use rustpress_plugin_authpro.Db.Users.{new_user, select_user_by_email, insert_user}
use rustpress_plugin_authpro.Exec.{
  World, Exec, pure, lift, draw, fail_if, run_sql, tick, ◌>>=◌, ◌>>◌,
}
use rustpress_plugin_authpro.Exec.Stepping.{bind-nest, bind-of_returns, bind-of_fails}
use rustpress_plugin_authpro.Service.Password.{hash_with_salt, hash_password, validate_password}
use rustpress_plugin_authpro.Service.Account.{register}
use rustpress_plugin_authpro.Service.Login.Lockout.{with_email}

module _ (x : Externals) (c : AuthConfig) where
  -- `register` up to the test of the email, and the rest.
  unfoldable pub check_email : RegisterRequest → Exec (Unit {0})
  check_email req = do
    lift (validate_password x c req.password)
    existing ← run_sql x (select_user_by_email req.email)
    fail_if (is_some existing) email_exists

  unfoldable pub store_user : RegisterRequest → Exec User
  store_user req = do
    password_hash ← hash_password x c req.password
    id ← draw x.new_uuid
    run_sql x (insert_user id req.email password_hash req.name)

  -- The two parts are all of `register`.
  check_email-store_user :
      (req : RegisterRequest) (w : World)
      → (check_email req >>= λ _. store_user req) w ≡ register x c req w
  unfolding check_email store_user register
  check_email-store_user req w =
      bind-nest _ _ _ _ w (λ _ v. bind-nest _ _ _ _ v (λ existing v. refl))

  -- Two requests, where both look for the email before either stores its user.
  unfoldable pub register_both : RegisterRequest → RegisterRequest → Exec (User × User)
  register_both req req' = do
    check_email req
    check_email req'
    u ← store_user req
    u' ← store_user req'
    pure (u, u')

  -- The password is strong and argon2 hashes it at that step; the columns hold the texts, and the
  -- identifier is new.
  pub record StoreReady (req : RegisterRequest) (hash : String) (w : World) : Type 0 where
    pub hashed : hash_with_salt x c req.password (x.salt w.step) ≡ ok hash
    pub email_fits : fits 255 req.email ≡ true
    pub hash_fits : fits 255 hash ≡ true
    pub name_fits : fits 100 req.name ≡ true
    pub new_id : any (λ u. u.id == x.new_uuid (suc w.step)) w.db.users ≡ false

  abbrev pub stored_user : RegisterRequest → String → World → User
  stored_user req hash w =
      new_user (x.new_uuid (suc w.step)) req.email hash req.name (x.db_now (suc (suc w.step)))

  abbrev pub stored_world : RegisterRequest → String → World → World
  stored_world req hash w = record {
    db = record w.db { users = w.db.users ++ stored_user req hash w ∷ [] };
    step = suc (suc (suc w.step));
  }

  check_email-passes :
      (req : RegisterRequest) (w : World)
      → ((n : ℕ) → x.db_fault n ≡ none)
      → validate_password x c req.password ≡ ok tt
      → with_email req.email w.db ≡ none
      → check_email req w ≡ (ok tt, tick w)
  unfolding check_email select_user_by_email fail_if ◌>>=◌
  check_email-passes req w healthy strong absent = simp (healthy, strong, absent)

  store_user-stores :
      (req : RegisterRequest) (hash : String) (w : World)
      → ((n : ℕ) → x.db_fault n ≡ none)
      → StoreReady req hash w
      → any (λ u. str_eq u.email req.email) w.db.users ≡ false
      → store_user req w ≡ (ok (stored_user req hash w), stored_world req hash w)
  unfolding store_user hash_password insert_user ◌>>=◌
  store_user-stores req hash w healthy h absent =
      simp (healthy, h.hashed, h.email_fits, h.hash_fits, h.name_fits, h.new_id, absent)

  store_user-refused :
      (req : RegisterRequest) (hash : String) (w : World)
      → ((n : ℕ) → x.db_fault n ≡ none)
      → StoreReady req hash w
      → any (λ u. str_eq u.email req.email) w.db.users ≡ true
      → store_user req w
        ≡ (err (database "duplicate key value: users_email_key"), tick (tick (tick w)))
  unfolding store_user hash_password insert_user ◌>>=◌
  store_user-refused req hash w healthy h present =
      simp (healthy, h.hashed, h.email_fits, h.hash_fits, h.name_fits, h.new_id, present)

  -- Of two registrations at once with one email, one is stored: where both look for the email before
  -- either stores its user, and nothing else stops either, the first stores its user, and the second,
  -- which the UNIQUE constraint stops, is answered by a database error, not by EmailExists, and
  -- writes nothing.
  pub register_both-second :
      (req req' : RegisterRequest) (hash hash' : String) (w : World)
      → req'.email ≡ req.email
      → ((n : ℕ) → x.db_fault n ≡ none)
      → validate_password x c req.password ≡ ok tt
      → validate_password x c req'.password ≡ ok tt
      → any (λ u. str_eq u.email req.email) w.db.users ≡ false
      → StoreReady req hash (tick (tick w))
      → StoreReady req' hash' (stored_world req hash (tick (tick w)))
      → register_both req req' w ≡ (
        err (database "duplicate key value: users_email_key"),
        tick (tick (tick (stored_world req hash (tick (tick w))))),
      )
  unfolding register_both
  register_both-second req req' hash hash' w same healthy strong strong' absent h h' =
      bind-of_returns _ _ w _ tt (check_email-passes req w healthy strong nobody)
      ∙ bind-of_returns _ _ _ _ tt
          (check_email-passes req' (tick w) healthy strong' (rw same nobody))
      ∙ bind-of_returns _ _ _ _ _ (store_user-stores req hash (tick (tick w)) healthy h absent)
      ∙ bind-of_fails _ _ _ _ _
          (store_user-refused req' hash' (stored_world req hash (tick (tick w))) healthy h' taken)
    where
      nobody : with_email req.email w.db ≡ none
      nobody =
          find_where-none (λ u. str_eq u.email req.email) (λ u. str_eq u.email req.email) (λ u e. e)
            w.db.users absent

      taken :
          any
            (λ u. str_eq u.email req'.email)
            (w.db.users ++ stored_user req hash (tick (tick w)) ∷ [])
          ≡ true
      taken = rw same (
          ground (
            arith,
            any-append (λ u. str_eq u.email req.email) w.db.users
                (stored_user req hash (tick (tick w)) ∷ []),
            eq_refl req.email,
          ))
