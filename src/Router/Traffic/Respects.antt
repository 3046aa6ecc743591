-- ===== src/Router/Traffic/Respects.antt =====
-- A preorder that the statements keep is kept by every request, whatever is answered.
use rustpress_plugin_authpro.Base.{String, Bool, true, false, Option, none, some, List, [], ◌∷◌}
use rustpress_plugin_authpro.Error.{Outcome, ok, err, panic}
use rustpress_plugin_authpro.Models.{Uuid}
use rustpress_plugin_authpro.Config.{AuthConfig}
use rustpress_plugin_authpro.Externals.{Externals}
use rustpress_plugin_authpro.Db.{Db}
use rustpress_plugin_authpro.Exec.{World, Exec}
use rustpress_plugin_authpro.Exec.Respects.{IsPreorder, Respects, Respects-pure, Respects-lift}
use rustpress_plugin_authpro.Service.Account.{get_user}
use rustpress_plugin_authpro.Service.Calls.Statements.{StatementsKeep, Moves, statement_rules}
use rustpress_plugin_authpro.Service.Calls.Sessions.{
  login-Respects, logout-Respects, refresh_tokens-Respects,
}
use rustpress_plugin_authpro.Service.Calls.Respects.{
  forgot_password-Respects, reset_password-Respects, register-Respects, change_password-Respects,
  create_email_verification-Respects, verify_email-Respects,
}
use rustpress_plugin_authpro.Handlers as Handlers
use rustpress_plugin_authpro.Handlers.Validation.{Failure, Validator, validated}
use rustpress_plugin_authpro.Extractors.{AuthUser, ClientInfo}
use rustpress_plugin_authpro.Middleware.{Checked, passed, refused}
use rustpress_plugin_authpro.RateLimit.Answers.{GovernorError, Limiter}
use rustpress_plugin_authpro.Router.Serve.{
  Limited, registers, logs_in, refreshes, forgets_password, resets_password, Public, logs_out,
  verifies_email, Protected, asks_me, asks_verification, changes_password, Reply, reply_of, respond,
  handle_limited, handle_public, handle_protected, serve_governed, serve_limited, serve_checked,
  serve_protected,
}
use rustpress_plugin_authpro.Router.Traffic.{
  Incoming, limited, public_unlimited, protected, serve, serve_all,
}

replied :
    {A : Type 0} (R : Db → Db → Type 0) (f : A → Reply) (d : Db) (r : Outcome A × World)
    → R d r.1.db
    → R d (reply_of f r).1.db
replied R f d (ok a, w) h = h
replied R f d (err e, w) h = h
replied R f d (panic m, w) h = h

module _ {R : Db → Db → Type 0} where
  respond-Respects :
      {A : Type 0} (f : A → Reply) (m : Exec A) → Respects R m → Respects R (respond f m)
  unfolding respond
  respond-Respects f m h = record { at = λ w. replied R f w.db (m w) (h.at w) }

module _ {R : Db → Db → Type 0} (pre : IsPreorder R) where
  validated-Respects : (v : Validator) (fs : List Failure) → Respects R (validated v fs)
  unfolding validated
  validated-Respects v [] = Respects-pure pre tt
  validated-Respects v (f ∷ fs) = Respects-lift pre _

module _ {R : Db → Db → Type 0} {x : Externals} {c : AuthConfig} (k : StatementsKeep R x c)
    (v : Validator) where
  ruleset handler_rules = (statement_rules, respond-Respects, validated-Respects)

  handle_limited-Respects :
      (client : ClientInfo) (req : Limited) → Respects R (handle_limited x c v client req)
  unfolding handle_limited Handlers.register Handlers.login Handlers.refresh_token
      Handlers.forgot_password Handlers.reset_password
  handle_limited-Respects client (registers req) =
      search (handler_rules, k.preorder, register-Respects k, create_email_verification-Respects k)
        depth 12
  handle_limited-Respects client (logs_in req) =
      search (handler_rules, k.preorder, login-Respects k)
  handle_limited-Respects client (refreshes req) =
      search (handler_rules, k.preorder, refresh_tokens-Respects k)
  handle_limited-Respects client (forgets_password req) =
      search (handler_rules, k.preorder, forgot_password-Respects k) depth 9
  handle_limited-Respects client (resets_password req) =
      search (handler_rules, k.preorder, reset_password-Respects k) depth 9

  handle_public-Respects : (req : Public) → Respects R (handle_public x c v req)
  unfolding handle_public Handlers.logout Handlers.verify_email
  handle_public-Respects (logs_out req) =
      search (handler_rules, k.preorder, logout-Respects k) depth 9
  handle_public-Respects (verifies_email req) =
      search (handler_rules, k.preorder, verify_email-Respects k) depth 9

  resend-Respects : (id : Uuid) (b : Bool) → Respects R (Handlers.resend x c v id b)
  unfolding Handlers.resend
  resend-Respects id true = search (handler_rules, k.preorder)
  resend-Respects id false =
      search (handler_rules, k.preorder, create_email_verification-Respects k)

  handle_protected-Respects :
      (user : AuthUser) (req : Protected) → Respects R (handle_protected x c v user req)
  unfolding handle_protected Handlers.get_current_user Handlers.resend_verification
      Handlers.change_password get_user
  handle_protected-Respects user asks_me = search (handler_rules, k.preorder)
  handle_protected-Respects user asks_verification =
      search (handler_rules, k.preorder, resend-Respects) depth 12
  handle_protected-Respects user (changes_password req) =
      search (handler_rules, k.preorder, change_password-Respects k) depth 9

  serve_governed-Respects :
      (verdict : Option GovernorError) (client : ClientInfo) (req : Limited)
      → Respects R (serve_governed x c v verdict client req)
  serve_governed-Respects none client req = handle_limited-Respects client req
  serve_governed-Respects (some e) client req = Respects-pure k.preorder _

  serve_checked-Respects :
      (user : Checked AuthUser) (req : Protected) → Respects R (serve_checked x c v user req)
  serve_checked-Respects (passed user) req = handle_protected-Respects user req
  serve_checked-Respects (refused r) req = Respects-pure k.preorder _

  module _ (env : String → Option String) (limiter : Limiter) where
    serve-Respects : (r : Incoming) → Respects R (serve x c v env limiter r)
    unfolding serve serve_limited serve_protected
    serve-Respects (limited verdict headers req) = serve_governed-Respects _ _ req
    serve-Respects (public_unlimited req) = handle_public-Respects req
    serve-Respects (protected headers req) =
        search (statement_rules, k.preorder, serve_checked-Respects)

    serve_all-Respects :
        (rs : List Incoming) (w : World) → R w.db (serve_all x c v env limiter rs w).db
    unfolding serve_all
    serve_all-Respects [] w = k.preorder.same w.db
    serve_all-Respects (r ∷ rs) w =
        k.preorder.next w.db (serve x c v env limiter r w).1.db _ ((serve-Respects r).at w)
          (serve_all-Respects rs (serve x c v env limiter r w).1)

pub serve_all-Moves :
    (x : Externals) (c : AuthConfig) (v : Validator) (env : String → Option String)
    (limiter : Limiter) (rs : List Incoming) (w : World)
    → Moves x c w.db (serve_all x c v env limiter rs w).db
serve_all-Moves x c v env limiter rs w R k = serve_all-Respects k v env limiter rs w
