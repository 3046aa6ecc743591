-- ===== src/Router/Guarded.antt =====
-- The protected routes: what a request needs to reach a handler, and whom it can touch.
use rustpress_plugin_authpro.Base.{
  ◌≡◌, refl, sym, ap, subst, ◌∙◌, ◌⊎◌, inl, inr, String, Option, none, List, [], ◌∷◌,
}
use rustpress_plugin_authpro.Error.{Outcome, ok, err, panic}
use rustpress_plugin_authpro.Error.Response.{ErrorResponse}
use rustpress_plugin_authpro.Models.Claims.{AccessTokenClaims}
use rustpress_plugin_authpro.Models.Requests.{ChangePasswordRequest}
use rustpress_plugin_authpro.Config.{AuthConfig}
use rustpress_plugin_authpro.Externals.{Externals}
use rustpress_plugin_authpro.Exec.{World, tick, ◌>>=◌}
use rustpress_plugin_authpro.Handlers as Handlers
use rustpress_plugin_authpro.Handlers.Validation.{Failure, Validator, validated}
use rustpress_plugin_authpro.Models.{Uuid}
use rustpress_plugin_authpro.Exec.Respects.{Respects, Respects-pure, Respects-lift, Respects-bind}
use rustpress_plugin_authpro.Service.Account as Accounts
use rustpress_plugin_authpro.Service.Account.Others.{
  OthersKept, others-IsPreorder, change_password-OthersKept,
}
use rustpress_plugin_authpro.Extractors.{AuthUser, from_claims}
use rustpress_plugin_authpro.Extractors.FromParts.{from_request_parts}
use rustpress_plugin_authpro.Middleware.{
  Checked, passed, refused, Request, and_then, validate_token, require_auth,
}
use rustpress_plugin_authpro.Middleware.Guards.{
  user_of, from_request_parts_lem, require_auth-from_request_parts,
}
use rustpress_plugin_authpro.Router.Serve.{
  Protected, changes_password, Reply, failed, serve_checked, serve_protected, handle_protected,
  respond, reply_of,
}

module _ (x : Externals) (c : AuthConfig) (v : Validator)
    (env headers : String → Option String) where
  -- A protected route serves a request whose Authorization header holds a valid access token as the
  -- user of its claims, and turns any other away with the refusal of the check, writing nothing.
  pub serve_protected_lem :
      (req : Protected) (w : World)
      → ((claims : AccessTokenClaims) × (validate_token x env
              (x.utc_now w.step)
              (headers "Authorization")
            ≡ passed claims)
          × (serve_protected x c v env headers req w
              ≡ handle_protected x c v (from_claims claims) req (tick w)))
        ⊎ ((r : ErrorResponse) × (validate_token x env (x.utc_now w.step) (headers "Authorization")
              ≡ refused r)
            × (serve_protected x c v env headers req w ≡ (ok (failed r), tick w)))
  unfolding serve_protected ◌>>=◌
  serve_protected_lem req w =
      decided (validate_token x env (x.utc_now w.step) (headers "Authorization")) refl
    where
      request : Request
      request = record { authorization = headers "Authorization"; claims = none }

      checked :
          and_then
            (require_auth x env (x.utc_now w.step) request)
            (from_request_parts x env (x.utc_now w.step))
          ≡ user_of (validate_token x env (x.utc_now w.step) (headers "Authorization"))
      checked =
          require_auth-from_request_parts x env (x.utc_now w.step) request refl
          ∙ from_request_parts_lem x env (x.utc_now w.step) request refl

      decided :
          (t : Checked AccessTokenClaims)
          → validate_token x env (x.utc_now w.step) (headers "Authorization") ≡ t
          → ((claims : AccessTokenClaims) × (validate_token x env
                  (x.utc_now w.step)
                  (headers "Authorization")
                ≡ passed claims)
              × (serve_protected x c v env headers req w
                  ≡ handle_protected x c v (from_claims claims) req (tick w)))
            ⊎ ((r : ErrorResponse) × (validate_token x env
                    (x.utc_now w.step)
                    (headers "Authorization")
                  ≡ refused r)
                × (serve_protected x c v env headers req w ≡ (ok (failed r), tick w)))
      decided (passed claims) e =
          inl (claims, e, ap (λ u. serve_checked x c v u req (tick w)) (checked ∙ ap user_of e))
      decided (refused r) e =
          inr (r, e, ap (λ u. serve_checked x c v u req (tick w)) (checked ∙ ap user_of e))

  validated-OthersKept : (id : Uuid) (fs : List Failure) → Respects (OthersKept id) (validated v fs)
  unfolding validated
  validated-OthersKept id [] = Respects-pure (others-IsPreorder id) tt
  validated-OthersKept id (f ∷ fs) = Respects-lift (others-IsPreorder id) _

  handler-OthersKept :
      (user : AuthUser) (req : ChangePasswordRequest)
      → Respects (OthersKept user.id) (Handlers.change_password x c v user req)
  unfolding Handlers.change_password
  handler-OthersKept user req =
      let service : Respects (OthersKept user.id) (Accounts.change_password x c user.id req) =
        record { at = change_password-OthersKept x c user.id req } in
      let pre = others-IsPreorder user.id in
      Respects-bind pre _ _ (validated-OthersKept user.id _)
        (λ _. Respects-bind pre _ _ service (λ _. Respects-pure pre _))

  reply-world : {A : Type 0} (f : A → Reply) (r : Outcome A × World) → (reply_of f r).1.db ≡ r.1.db
  reply-world f (ok a, w) = refl
  reply-world f (err e, w) = refl
  reply-world f (panic m, w) = refl

  -- POST /auth/change-password touches nobody but the user whom the request's token names: whatever
  -- it answers, the rows and the refresh tokens of all others stay as they were.
  pub change_password-serves_own :
      (req : ChangePasswordRequest) (w : World) (claims : AccessTokenClaims)
      → validate_token x env (x.utc_now w.step) (headers "Authorization") ≡ passed claims
      → OthersKept claims.sub w.db (serve_protected x c v env headers (changes_password req) w).1.db
  unfolding handle_protected respond from_claims
  change_password-serves_own req w claims valid =
      elim (serve_protected_lem (changes_password req) w) [
        | inl (claims', valid', served) ↦
            let same : claims' ≡ claims = cc (valid, valid') in
            let answered =
              ap (λ r. r.1.db) served
              ∙ reply-world _ (Handlers.change_password x c v (from_claims claims') req (tick w)) in
            subst
              (λ k.
                OthersKept k.sub w.db
                  (serve_protected x c v env headers (changes_password req) w).1.db)
              same
              (subst (OthersKept claims'.sub w.db) (sym answered)
                ((handler-OthersKept (from_claims claims') req).at (tick w)))
        | inr (r, refusal, _) ↦ cc (valid, refusal)
      ]
