-- ===== src/Service/Account/Registered.antt =====
-- What a registration that succeeds has checked and written.
use rustpress_plugin_authpro.Base.{
  suc, ◌≡◌, ap, sym, ◌∙◌, String, str_eq, false, [], ◌∷◌, ◌++◌, any, ◌==◌,
}
use rustpress_plugin_authpro.Error.{ok}
use rustpress_plugin_authpro.Models.{User}
use rustpress_plugin_authpro.Models.Requests.{RegisterRequest}
use rustpress_plugin_authpro.Config.{AuthConfig}
use rustpress_plugin_authpro.Externals.{Externals}
use rustpress_plugin_authpro.Db.Users.{new_user, select_user_by_email}
use rustpress_plugin_authpro.Db.Effects.{insert_user-done}
use rustpress_plugin_authpro.Exec.{World, tick}
use rustpress_plugin_authpro.Exec.Inversion.{
  Returns, Returns-run_sql, bind-lift, bind-draw, bind-fail_if, bind-select,
}
use rustpress_plugin_authpro.Service.Password.{hash_with_salt, hash_password, validate_password}
use rustpress_plugin_authpro.Service.Password.Returned.{bind-hash_password}
use rustpress_plugin_authpro.Service.Account.{register}
use rustpress_plugin_authpro.Service.Login.Lockout.{with_email}

module _ (x : Externals) (c : AuthConfig) where
  pub record Registered (req : RegisterRequest) (w : World) (u : User) (w' : World) : Type 0 where
    pub password_hash : String
    pub strong : validate_password x c req.password ≡ ok tt
    pub hashed : hash_with_salt x c req.password (x.salt (suc w.step)) ≡ ok password_hash
    pub new_email : any (λ v. str_eq v.email req.email) w.db.users ≡ false
    pub new_id : any (λ v. v.id == x.new_uuid (suc (suc w.step))) w.db.users ≡ false
    pub created :
        u
        ≡ new_user
            (x.new_uuid (suc (suc w.step)))
            req.email
            password_hash
            req.name
            (x.db_now (suc (suc (suc w.step))))
    pub stored : w'.db ≡ record w.db { users = w.db.users ++ u ∷ [] }

  -- A registration succeeds only with a password that meets the policy, and an email and an
  -- identifier that no row has. Its one write is a new row with the hash of that password, which is
  -- an active user of the role `user`, not verified, with no failed login and no lock.
  pub register-Returns :
      (req : RegisterRequest) (w w' : World) (u : User)
      → Returns (register x c req) w u w'
      → Registered req w u w'
  unfolding register hash_password select_user_by_email
  register-Returns req w w' u e =
      let (_, strong, e1) = bind-lift w w' u _ _ e in
      let e2 = bind-select w w' u x (λ _ d. with_email req.email d) _ e1 in
      let (_, e3) = bind-fail_if (tick w) w' u _ _ _ e2 in
      let (hash, hashed, e4) = bind-hash_password x c (tick w) w' u _ _ e3 in
      let e5 = bind-draw (tick (tick w)) w' u x.new_uuid _ e4 in
      let (inserted, _) = Returns-run_sql x _ _ w' u e5 in
      let (moved, made, new_id, new_email) =
        insert_user-done _ w.db w'.db (x.new_uuid (suc (suc w.step))) req.email hash req.name u
          inserted in
      record {
        password_hash = hash;
        strong = strong;
        hashed = hashed;
        new_email = new_email;
        new_id = new_id;
        created = made;
        stored = moved ∙ ap (λ v. record w.db { users = w.db.users ++ v ∷ [] }) (sym made);
      }
