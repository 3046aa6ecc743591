-- ===== src/Middleware/Guards.antt =====
-- The middleware before a handler and the extractor in it: what the handler can rely on.
use rustpress_plugin_authpro.Base.{
  ◌≡◌, refl, sym, ap, ◌∙◌, String, str_eq, true, Option, none, some, arith, Bool-cases, inl, inr,
}
use rustpress_plugin_authpro.Models.{Instant}
use rustpress_plugin_authpro.Models.Claims.{AccessTokenClaims}
use rustpress_plugin_authpro.Externals.{Externals}
use rustpress_plugin_authpro.Extractors.{AuthUser, from_claims, is_admin}
use rustpress_plugin_authpro.Extractors.FromParts.{extract_token, from_request_parts}
use rustpress_plugin_authpro.Middleware.{
  Checked, and_then, store_if_valid, passed, refused, Request, validate_header, validate_token,
  require_auth, require_admin, optional_auth, get_validation, get_decoding_key,
}

-- The user of the claims, if there are any.
abbrev pub user_of : Checked AccessTokenClaims → Checked AuthUser
user_of (passed claims) = passed (from_claims claims)
user_of (refused r) = refused r

and_then-passed :
    {A B : Type 0} (v : Checked A) (f : A → Checked B) (b : B)
    → and_then v f ≡ passed b
    → (a : A) × (v ≡ passed a) × (f a ≡ passed b)
and_then-passed (passed a) f b e = (a, refl, e)
and_then-passed (refused r) f b e = cc

module _ (x : Externals) (env : String → Option String) (now : Instant) where
  -- The extractor and the middleware read a header alike.
  extract_token_lem :
      (header : String)
      → extract_token x env now header ≡ user_of (validate_header x env now header)
  unfolding extract_token validate_header get_decoding_key get_validation
  extract_token_lem header = ground arith

  pub from_request_parts_lem :
      (req : Request)
      → req.claims ≡ none
      → from_request_parts x env now req ≡ user_of (validate_token x env now req.authorization)
  unfolding from_request_parts validate_token
  from_request_parts_lem req fresh = rw fresh (read req.authorization)
    where
      read :
          (header : Option String)
          → from_request_parts x env now (record { authorization = header; claims = none })
            ≡ user_of (validate_token x env now header)
      read none = refl
      read (some header) = extract_token_lem header

  -- A handler behind `require_admin` that takes the user of the request gets one with the role
  -- `admin`, made of the claims of the token in the header.
  pub require_admin-is_admin :
      (req req' : Request)
      → require_admin x env now req ≡ passed req'
      → (claims : AccessTokenClaims) × (u : AuthUser) × (validate_token x env now req.authorization
          ≡ passed claims)
        × (from_request_parts x env now req' ≡ passed u)
        × (u ≡ from_claims claims)
        × (is_admin u ≡ true)
  unfolding require_admin from_request_parts is_admin from_claims
  require_admin-is_admin req req' e =
      let (claims, valid, kept) =
        and_then-passed (validate_token x env now req.authorization) _ req' e in
      elim (Bool-cases (str_eq claims.role "admin")) [
        | inl admin ↦
            let stored : req' ≡ record req { claims = some claims } = ground arith in
            (claims, from_claims claims, valid, rw stored, refl, admin)
        | inr other ↦ ground arith
      ]

  -- For a request that carries no claims, `require_auth` and the extractor behind it come to what
  -- the extractor alone comes to: the same user, or the same refusal.
  pub require_auth-from_request_parts :
      (req : Request)
      → req.claims ≡ none
      → and_then (require_auth x env now req) (from_request_parts x env now)
        ≡ from_request_parts x env now req
  unfolding require_auth from_request_parts from_claims
  require_auth-from_request_parts req fresh =
      rw (from_request_parts_lem req fresh) (both (validate_token x env now req.authorization))
    where
      both :
          (v : Checked AccessTokenClaims)
          → and_then
              (and_then v (λ claims. passed (record req { claims = some claims })))
              (from_request_parts x env now)
            ≡ user_of v
      both (passed claims) = refl
      both (refused r) = refl

  -- `optional_auth` changes nothing for the extractor: on a request that carries no claims, the
  -- handler behind it finds the user that it would find without it, or is refused alike.
  pub optional_auth-from_request_parts :
      (req : Request)
      → req.claims ≡ none
      → from_request_parts x env now (optional_auth x env now req)
        ≡ from_request_parts x env now req
  unfolding optional_auth from_request_parts from_claims
  optional_auth-from_request_parts req fresh = rw fresh (read req.authorization)
    where
      both :
          (header : Option String) (v : Checked AccessTokenClaims)
          → v ≡ validate_token x env now header
          → from_request_parts x env now
              (store_if_valid x env now (record { authorization = header; claims = none }) v)
            ≡ from_request_parts x env now (record { authorization = header; claims = none })
      both header (passed claims) e = sym (
          from_request_parts_lem (record { authorization = header; claims = none }) refl
          ∙ ap user_of (sym e))
      both header (refused r) e = refl

      read :
          (header : Option String)
          → from_request_parts x env now
              (optional_auth x env now (record { authorization = header; claims = none }))
            ≡ from_request_parts x env now (record { authorization = header; claims = none })
      read none = refl
      read (some header) = both (some header) (validate_token x env now (some header)) refl
