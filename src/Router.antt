-- ===== src/Router.antt =====
-- `create_routes_with_rate_limit` of handlers.rs: which handler serves a request, and what runs
-- before it. axum answers 404 for a path that is not listed, and 405 for another method.
pub mod Serve
pub mod Guarded
pub mod Traffic
pub mod Addresses
use rustpress_plugin_authpro.Base.{
  String, str_eq, Bool, true, false, Option, none, some, List, [], ◌∷◌, ◌++◌, if◌then◌else◌,
}

pub data Method : Type 0 where
  get head post other : Method

pub data Endpoint : Type 0 where
  register login refresh_token forgot_password reset_password logout verify_email : Endpoint
  get_current_user change_password resend_verification : Endpoint

-- The router that a route is in: the limited, the public and the protected one.
pub data Group : Type 0 where
  limited public_unlimited protected : Group

pub record Route : Type 0 where
  pub path : String
  pub method : Method
  pub endpoint : Endpoint
  pub group : Group

abbrev route : Group → String → Method → Endpoint → Route
route group path method endpoint = record {
  path = path;
  method = method;
  endpoint = endpoint;
  group = group;
}

abbrev pub limited_routes : List Route
limited_routes =
    route limited "/auth/register" post register
    ∷ (route limited "/auth/login" post login
        ∷ (route limited "/auth/refresh" post refresh_token
            ∷ (route limited "/auth/forgot-password" post forgot_password
                ∷ (route limited "/auth/reset-password" post reset_password ∷ []))))

abbrev pub public_routes : List Route
public_routes =
    route public_unlimited "/auth/logout" post logout
    ∷ (route public_unlimited "/auth/verify-email" post verify_email ∷ [])

abbrev pub protected_routes : List Route
protected_routes =
    route protected "/auth/me" get get_current_user
    ∷ (route protected "/auth/change-password" post change_password
        ∷ (route protected "/auth/resend-verification" post resend_verification ∷ []))

-- `Router::new().merge(limited).merge(public_unlimited).merge(protected)`
abbrev pub all_routes : List Route
all_routes = limited_routes ++ public_routes ++ protected_routes

-- `get(…)` and `post(…)`; a GET route answers HEAD too, by its handler and without the body.
abbrev accepts : Method → Method → Bool
accepts get get = true
accepts get head = true
accepts head head = true
accepts post post = true
accepts other other = true
accepts _ _ = false

pub data Routed : Type 0 where
  routed : Endpoint → Group → Routed
  method_not_allowed not_found : Routed

abbrev answer : Method → Route → Routed
answer method r = if accepts r.method method then routed r.endpoint r.group else method_not_allowed

-- The paths are all different.
unfoldable pub find_route : Method → String → List Route → Routed
find_route method path [] = not_found
find_route method path (r ∷ rs) =
    let rest = find_route method path rs in if str_eq r.path path then answer method r else rest

unfoldable pub create_routes : Method → String → Routed
create_routes method path = find_route method path all_routes
