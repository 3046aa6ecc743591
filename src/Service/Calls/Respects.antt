-- ===== src/Service/Calls/Respects.antt =====
-- One proof for each method, for every preorder on the tables that the statements keep.
use rustpress_plugin_authpro.Base.{◌≡◌, String, Option, none, some, List, [], ◌∷◌}
use rustpress_plugin_authpro.Models.{Uuid, User}
use rustpress_plugin_authpro.Models.Requests.{
  RegisterRequest, ResetPasswordRequest, ChangePasswordRequest,
}
use rustpress_plugin_authpro.Config.{AuthConfig}
use rustpress_plugin_authpro.Externals.{Externals}
use rustpress_plugin_authpro.Db.{Db}
use rustpress_plugin_authpro.Db.Users.{select_user_by_email, select_user}
use rustpress_plugin_authpro.Error.{ok}
use rustpress_plugin_authpro.Exec.{World, Exec, draw, tick, ◌>>=◌}
use rustpress_plugin_authpro.Service.Password.{hash_with_salt, hash_password, validate_password}
use rustpress_plugin_authpro.Service.Password.Stored.{OfStrong}
use rustpress_plugin_authpro.Exec.Respects.{
  Respects, Respects-run_sql, Respects-bind, Respects-bind_lift,
}
use rustpress_plugin_authpro.Service.Account.{
  get_user, get_user_by_email, register, change_password,
}
use rustpress_plugin_authpro.Service.Reset.{issue_reset, forgot_password, reset_password}
use rustpress_plugin_authpro.Service.Verification.{create_email_verification, verify_email}
use rustpress_plugin_authpro.Service.Calls.{
  Call, registers, logs_in, logs_out, refreshes, forgets_password, resets_password,
  changes_password, asks_verification, verifies_email, gets_user, gets_user_by_email, perform, run,
}
use rustpress_plugin_authpro.Service.Calls.Statements.{
  StatementsKeep, Moves, select_user-Keeps, select_user_by_email-Keeps, statement_rules,
}
use rustpress_plugin_authpro.Service.Calls.Sessions.{
  expiry-Respects, find_user-Respects, revoke_all_tokens-Respects, login-Respects, logout-Respects,
  refresh_tokens-Respects,
}

module _ {R : Db → Db → Type 0} {x : Externals} {c : AuthConfig} (k : StatementsKeep R x c) where
  issue_reset-Respects : (found : Option User) → Respects R (issue_reset x c found)
  unfolding issue_reset
  issue_reset-Respects none = search (statement_rules, k.preorder)
  issue_reset-Respects (some u) =
      search (statement_rules, k.preorder, expiry-Respects k, k.supersedes, k.inserts_token) depth
        12

  pub forgot_password-Respects : (email : String) → Respects R (forgot_password x c email)
  unfolding forgot_password
  forgot_password-Respects email = search (statement_rules, k.preorder, issue_reset-Respects)

  -- What is stored of a strong password is its hash.
  bind-hash_password :
      {B : Type 0} (password : String) (f : String → Exec B)
      → validate_password x c password ≡ ok tt
      → ((hash : String) → OfStrong x c hash → Respects R (f hash))
      → Respects R (hash_password x c password >>= f)
  unfolding hash_password ◌>>=◌ draw
  bind-hash_password password f strong rest = record {
    at = λ w.
        (Respects-bind_lift k.preorder (hash_with_salt x c password (x.salt w.step)) f
            (λ hash made. rest hash (password, x.salt w.step, strong, made))).at
          (tick w);
  }

  pub reset_password-Respects : (req : ResetPasswordRequest) → Respects R (reset_password x c req)
  unfolding reset_password
  reset_password-Respects req = Respects-bind_lift k.preorder _ _ (λ _ strong.
      Respects-bind k.preorder _ _ (search (statement_rules, k.preorder)) (λ found.
        Respects-bind k.preorder _ _ (search (statement_rules, k.preorder)) (λ token.
          bind-hash_password req.password _ strong (λ hash stored.
            search
              (
                statement_rules,
                k.preorder,
                k.sets_password,
                k.uses_token,
                revoke_all_tokens-Respects k,
              )
              depth 12))))

  pub register-Respects : (req : RegisterRequest) → Respects R (register x c req)
  unfolding register
  register-Respects req = Respects-bind_lift k.preorder _ _ (λ _ strong.
      Respects-bind k.preorder _ _ (search (statement_rules, k.preorder)) (λ existing.
        Respects-bind k.preorder _ _ (search (statement_rules, k.preorder)) (λ _.
          bind-hash_password req.password _ strong
            (λ hash stored. search (statement_rules, k.preorder, k.inserts_user) depth 12))))

  pub change_password-Respects :
      (id : Uuid) (req : ChangePasswordRequest) → Respects R (change_password x c id req)
  unfolding change_password
  change_password-Respects id req = Respects-bind k.preorder _ _ (find_user-Respects k id) (λ user.
      Respects-bind k.preorder _ _ (search (statement_rules, k.preorder)) (λ verified.
        Respects-bind k.preorder _ _ (search (statement_rules, k.preorder)) (λ _.
          Respects-bind_lift k.preorder _ _ (λ _ strong.
            bind-hash_password req.new_password _ strong (λ hash stored.
              search (statement_rules, k.preorder, k.sets_password, revoke_all_tokens-Respects k)
                depth 12)))))

  pub create_email_verification-Respects :
      (id : Uuid) → Respects R (create_email_verification x c id)
  unfolding create_email_verification
  create_email_verification-Respects id =
      search (statement_rules, k.preorder, expiry-Respects k, k.supersedes, k.inserts_token) depth
        12

  pub verify_email-Respects : (token : String) → Respects R (verify_email x c token)
  unfolding verify_email
  verify_email-Respects token =
      search (statement_rules, k.preorder, k.sets_email_verified, k.uses_token) depth 9

  perform-Respects : (call : Call) (w : World) → R w.db (perform x c call w).db
  unfolding perform get_user get_user_by_email
  perform-Respects (registers req) w = (register-Respects req).at w
  perform-Respects (logs_in req ip agent) w = (login-Respects k req ip agent).at w
  perform-Respects (logs_out token) w = (logout-Respects k token).at w
  perform-Respects (refreshes token ip agent) w = (refresh_tokens-Respects k token ip agent).at w
  perform-Respects (forgets_password email) w = (forgot_password-Respects email).at w
  perform-Respects (resets_password req) w = (reset_password-Respects req).at w
  perform-Respects (changes_password id req) w = (change_password-Respects id req).at w
  perform-Respects (asks_verification id) w = (create_email_verification-Respects id).at w
  perform-Respects (verifies_email token) w = (verify_email-Respects token).at w
  perform-Respects (gets_user id) w =
      (Respects-run_sql k.preorder x (select_user id) (select_user-Keeps k.preorder id)).at w
  perform-Respects (gets_user_by_email email) w =
      (Respects-run_sql k.preorder x (select_user_by_email email)
          (select_user_by_email-Keeps k.preorder email)).at
        w

  -- Every sequence of calls, failing or not, moves the tables along `R`.
  run-Respects : (calls : List Call) (w : World) → R w.db (run x c calls w).db
  unfolding run
  run-Respects [] w = k.preorder.same w.db
  run-Respects (call ∷ calls) w =
      k.preorder.next w.db (perform x c call w).db _ (perform-Respects call w)
        (run-Respects calls (perform x c call w))

pub run-Moves :
    (x : Externals) (c : AuthConfig) (calls : List Call) (w : World)
    → Moves x c w.db (run x c calls w).db
run-Moves x c calls w R k = run-Respects k calls w
