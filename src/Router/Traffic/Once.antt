-- ===== src/Router/Traffic/Once.antt =====
-- Tokens that work once, over any requests.
use rustpress_plugin_authpro.Base.{◌≡◌, true, subst, sym, String, Option, none, some, List}
use rustpress_plugin_authpro.Error.{Outcome, ok, err, panic}
use rustpress_plugin_authpro.Models.Requests.{RefreshTokenRequest, ResetPasswordRequest}
use rustpress_plugin_authpro.Models.Responses.{TokenResponse, MessageResponse}
use rustpress_plugin_authpro.Config.{AuthConfig}
use rustpress_plugin_authpro.Externals.{Externals}
use rustpress_plugin_authpro.Exec.{World, pure}
use rustpress_plugin_authpro.Exec.Inversion.{Returns, Returns-bind, Returns-pure}
use rustpress_plugin_authpro.Extractors.{ClientInfo, client_info}
use rustpress_plugin_authpro.Handlers as Handlers
use rustpress_plugin_authpro.Handlers.Validation.{Validator, refresh_failures, reset_failures}
use rustpress_plugin_authpro.Handlers.Passed.{bind-validated}
use rustpress_plugin_authpro.RateLimit.Answers.{GovernorError, Limiter}
use rustpress_plugin_authpro.Service.Refresh.{refresh_tokens}
use rustpress_plugin_authpro.Service.Reset.{reset_password}
use rustpress_plugin_authpro.Safety.RefreshOnce.{DecodesPayload, refresh_tokens-spent}
use rustpress_plugin_authpro.Safety.ResetOnce.{has_unique_hashes, reset_password-spent}
use rustpress_plugin_authpro.Router.Serve.{
  refreshes, resets_password, tokens, message, reply_of, respond, handle_limited, under,
  serve_governed, serve_limited,
}
use rustpress_plugin_authpro.Router.Traffic.{Incoming, limited, serve, serve_all}
use rustpress_plugin_authpro.Router.Traffic.Respects.{serve_all-Moves}

-- What was replied is what the handler returned.
tokens_replied :
    (r : Outcome TokenResponse × World) (a : TokenResponse) (w' : World)
    → reply_of tokens r ≡ (ok (tokens a), w')
    → r ≡ (ok a, w')
tokens_replied (ok b, w) a w' e = cc e
tokens_replied (err x, w) a w' e = cc e
tokens_replied (panic m, w) a w' e = cc e

message_replied :
    (r : Outcome MessageResponse × World) (a : MessageResponse) (w' : World)
    → reply_of message r ≡ (ok (message a), w')
    → r ≡ (ok a, w')
message_replied (ok b, w) a w' e = cc e
message_replied (err x, w) a w' e = cc e
message_replied (panic m, w) a w' e = cc e

module _ (x : Externals) (c : AuthConfig) (v : Validator) (env : String → Option String)
    (limiter : Limiter) where
  governed_tokens :
      (verdict : Option GovernorError) (client : ClientInfo) (req : RefreshTokenRequest)
      (w w' : World) (r : TokenResponse)
      → serve_governed x c v verdict client (refreshes req) w ≡ (ok (tokens r), w')
      → Returns (refresh_tokens x c req.refresh_token client.ip client.user_agent) w r w'
  unfolding handle_limited respond Handlers.refresh_token pure
  governed_tokens none client req w w' r e =
      bind-validated v (refresh_failures v req) _ w w' r (tokens_replied _ r w' e)
  governed_tokens (some g) client req w w' r e = cc e

  governed_message :
      (verdict : Option GovernorError) (client : ClientInfo) (req : ResetPasswordRequest)
      (w w' : World) (m : MessageResponse)
      → serve_governed x c v verdict client (resets_password req) w ≡ (ok (message m), w')
      → Returns (reset_password x c req) w tt w'
  unfolding handle_limited respond Handlers.reset_password pure
  governed_message none client req w w' m e =
      let (_, w1, reset, rest) =
        Returns-bind (reset_password x c req) _ w w' m
          (bind-validated v (reset_failures v req) _ w w' m (message_replied _ m w' e)) in
      subst (λ s. Returns (reset_password x c req) w tt s) (sym ((Returns-pure _ w1 w' m rest).1))
        reset
  governed_message (some g) client req w w' m e = cc e

  -- POST /auth/refresh hands out tokens once for a token, where a JWT decodes to the same claims
  -- whenever it decodes: after it did, and any requests to any routes after that, a request with the
  -- same token gets none.
  pub serve-refresh_once :
      DecodesPayload x c
      → (req again : RefreshTokenRequest) (headers headers' : String → Option String)
        (verdict verdict' : Option GovernorError) (w w' w'' : World) (r r' : TokenResponse)
      → again.refresh_token ≡ req.refresh_token
      → serve x c v env limiter (limited verdict headers (refreshes req)) w ≡ (ok (tokens r), w')
      → (rs : List Incoming)
      → ¬ (
          serve x c v env limiter
            (limited verdict' headers' (refreshes again))
            (serve_all x c v env limiter rs w')
          ≡ (ok (tokens r'), w''))
  unfolding serve serve_limited
  serve-refresh_once payload req again headers headers' verdict verdict' w w' w'' r r' same e rs
        e' =
      let first =
        governed_tokens (under x c v limiter verdict) (client_info headers) req w w' r e in
      let later = serve_all x c v env limiter rs w' in
      let second =
        governed_tokens (under x c v limiter verdict') (client_info headers') again later w'' r'
          e' in
      refresh_tokens-spent x c payload req.refresh_token _ _ w w' r first later
        (serve_all-Moves x c v env limiter rs w') _ _ w'' r'
        (subst
          (λ t.
            Returns
              (refresh_tokens x c t (client_info headers').ip (client_info headers').user_agent)
              later r' w'')
          same second)

  -- POST /auth/reset-password works once for a token, where the table keeps its UNIQUE constraint on
  -- the hash: after it answered that the reset was done, and any requests to any routes after that,
  -- a request with the same token is not answered so, whatever password it brings.
  pub serve-reset_once :
      (req again : ResetPasswordRequest) (headers headers' : String → Option String)
      (verdict verdict' : Option GovernorError) (w w' w'' : World) (m m' : MessageResponse)
      → has_unique_hashes w.db.password_reset_tokens ≡ true
      → again.token ≡ req.token
      → serve x c v env limiter (limited verdict headers (resets_password req)) w
        ≡ (ok (message m), w')
      → (rs : List Incoming)
      → ¬ (
          serve x c v env limiter
            (limited verdict' headers' (resets_password again))
            (serve_all x c v env limiter rs w')
          ≡ (ok (message m'), w''))
  unfolding serve serve_limited
  serve-reset_once req again headers headers' verdict verdict' w w' w'' m m' unique same e rs e' =
      let later = serve_all x c v env limiter rs w' in
      reset_password-spent x c req w w' unique
        (governed_message (under x c v limiter verdict) (client_info headers) req w w' m e) later
        (serve_all-Moves x c v env limiter rs w') again w'' same
        (governed_message (under x c v limiter verdict') (client_info headers') again later w'' m'
          e')
