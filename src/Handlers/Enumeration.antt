-- ===== src/Handlers/Enumeration.antt =====
-- What the handler of POST /auth/forgot-password tells about an email.
use rustpress_plugin_authpro.Base.{
  ◌≡◌, ◌≢◌, refl, ap, sym, ◌∙◌, ◌↔◌, inl, inr, false, none, some, List, [], ℕ, suc,
}
use rustpress_plugin_authpro.Text.{is_empty, base64_url_encode}
use rustpress_plugin_authpro.Models.Requests.{ForgotPasswordRequest}
use rustpress_plugin_authpro.Config.{AuthConfig}
use rustpress_plugin_authpro.Externals.{Externals}
use rustpress_plugin_authpro.Exec.{World}
use rustpress_plugin_authpro.Exec.Inversion.{Returns, Returns-bind, Returns-pure}
use rustpress_plugin_authpro.Service.Login.Lockout.{with_email}
use rustpress_plugin_authpro.Service.Reset.Issued.{forgot_password-Returns}
use rustpress_plugin_authpro.Service.Reset as Resets
use rustpress_plugin_authpro.Handlers.Validation.{Validator, validated, forgot_failures}
use rustpress_plugin_authpro.Handlers.Passed.{validated-Returns}
use rustpress_plugin_authpro.Handlers.{ForgotReply, shown, forgot_password}

-- The encoding of some bytes is some text.
base64_url_encode-is_empty :
    (bytes : List ℕ) → bytes ≢ [] → is_empty (base64_url_encode bytes) ≡ false
unfolding base64_url_encode
base64_url_encode-is_empty [] h = absurd (h refl)
base64_url_encode-is_empty (List.◌∷◌ b bytes) h = refl

module _ (x : Externals) (c : AuthConfig) (v : Validator) where
  -- The answer to a request to reset a password reveals whether the email is registered: where each
  -- draw of random bytes has some byte, its `reset_token` is null if and only if nobody has it.
  pub forgot_password_reveals :
      ((n : ℕ) → x.random_bytes n ≢ [])
      → (req : ForgotPasswordRequest) (w w' : World) (r : ForgotReply)
      → Returns (forgot_password x c v req) w r w'
      → r.reset_token ≡ none ↔ with_email req.email w.db ≡ none
  unfolding forgot_password
  forgot_password_reveals some_bytes req w w' r e =
      let (_, w1, passed, e1) = Returns-bind (validated v (forgot_failures v req)) _ w w' r e in
      let same = validated-Returns v (forgot_failures v req) w w1 tt passed in
      let (token, w2, asked, e2) =
        Returns-bind (Resets.forgot_password x c req.email) _ w1 w' r e1 in
      let (given, _) = Returns-pure _ w2 w' r e2 in
      let read : r.reset_token ≡ shown x c v token (is_empty token) =
        ap (λ r. r.reset_token) given in
      elim (forgot_password-Returns x c req.email w1 w2 token asked) [
        | inl (nobody, empty, _) ↦
            let hidden : r.reset_token ≡ none = read ∙ ap (λ t. shown x c v t (is_empty t)) empty in
            (λ _. ap (λ s. with_email req.email s.db) (sym same) ∙ nobody, λ _. hidden)
        | inr (u, found, issued) ↦
            let long : is_empty token ≡ false =
              ap is_empty issued.encoded
              ∙ base64_url_encode-is_empty (x.random_bytes (suc w1.step))
                  (some_bytes (suc w1.step)) in
            let told : r.reset_token ≡ some token = read ∙ ap (shown x c v token) long in
            let known : with_email req.email w.db ≡ some u =
              ap (λ s. with_email req.email s.db) (sym same) ∙ found in
            (λ e. cc (e, told), λ e. cc (e, known))
      ]
