-- ===== src/Middleware/OwnTokens.antt =====
-- The access tokens of the service at the guards. The service has its settings from a configuration,
-- the guards read the environment at each request.
use rustpress_plugin_authpro.Base.{
  ◌≡◌, refl, String, str_append, true, false, Option, none, some, suc,
}
use rustpress_plugin_authpro.Text.Prefix.{starts_with}
use rustpress_plugin_authpro.Text.PrefixLaws.{trim_start_matches-append, starts_with-append}
use rustpress_plugin_authpro.Error.{ok}
use rustpress_plugin_authpro.Models.{Instant, User}
use rustpress_plugin_authpro.Models.Roles.{as_str}
use rustpress_plugin_authpro.Config.{AuthConfig}
use rustpress_plugin_authpro.Config.Env.{text_or, from_env}
use rustpress_plugin_authpro.Config.Settings.{from_env-TokenSettings}
use rustpress_plugin_authpro.Models.Claims.{AccessTokenClaims}
use rustpress_plugin_authpro.Externals.{Externals}
use rustpress_plugin_authpro.Exec.{World, tick}
use rustpress_plugin_authpro.Service.Token.{access_claims, generate_access_token}
use rustpress_plugin_authpro.Service.Token.Issues.{AccessReady, generate_access_token-issues}
use rustpress_plugin_authpro.Extractors.{from_claims}
use rustpress_plugin_authpro.Middleware.{
  or_else, passed, Request, validate_token, validate_header, get_decoding_key, get_validation,
  require_auth,
}

module _ (x : Externals) (env : String → Option String) (c : AuthConfig) (u : User) (w : World)
    (now : Instant) (token : String) where
  -- A token of the service, at the time `now`: it is made with the settings of the environment, it
  -- does not start like a header, and jsonwebtoken decodes what it encoded.
  pub record OwnToken : Type 0 where
    pub loaded : from_env env ≡ ok c
    pub made : AccessReady x c u w token
    pub clean : starts_with "Bearer " token ≡ false
    pub decoded :
        x.decode_access c.jwt_secret
          (record {
            issuer = c.jwt_issuer;
            audience = some c.jwt_audience;
            checks_signature = true;
          })
          now
          token
        ≡ some (access_claims x c u (x.utc_now w.step) made.exp (x.new_uuid (suc w.step)))

  abbrev pub bearing : Request
  bearing = record { authorization = some (str_append "Bearer " token); claims = none }

  same_text : (o : Option String) (d : String) → text_or o d ≡ or_else o d
  same_text none d = refl
  same_text (some t) d = refl

  module _ (h : OwnToken) where
    abbrev pub own_claims : AccessTokenClaims
    own_claims = access_claims x c u (x.utc_now w.step) h.made.exp (x.new_uuid (suc w.step))

    settings_agree :
        get_validation x env now
        ≡ record { issuer = c.jwt_issuer; audience = some c.jwt_audience; checks_signature = true }
    unfolding get_validation
    settings_agree =
        let s = from_env-TokenSettings env c h.loaded in
        rw (
          s.issuer,
          s.audience,
          same_text (env "JWT_ISSUER") "rustpress",
          same_text (env "JWT_AUDIENCE") "rustpress-api",
        )

    header_valid : validate_header x env now (str_append "Bearer " token) ≡ passed own_claims
    unfolding validate_header get_decoding_key
    header_valid =
        let s = from_env-TokenSettings env c h.loaded in
        simp (
          starts_with-append "Bearer " token,
          s.secret,
          settings_agree,
          trim_start_matches-append "B" "earer " token h.clean,
          h.decoded,
        )

    -- An access token that the service makes, under the settings of an environment, passes the
    -- guards under that environment while jsonwebtoken decodes it: the handler behind `require_auth`
    -- finds the user whom the token was made for, by the identifier and the role of the row.
    pub generate_access_token-require_auth :
        (generate_access_token x c u w ≡ (ok token, tick (tick w)))
        × (require_auth x env now bearing ≡ passed (record bearing { claims = some own_claims }))
        × ((from_claims own_claims).id ≡ u.id)
        × ((from_claims own_claims).role ≡ as_str u.role)
    unfolding require_auth validate_token from_claims
    generate_access_token-require_auth =
        (generate_access_token-issues x c u w token h.made, simp header_valid, refl, refl)
