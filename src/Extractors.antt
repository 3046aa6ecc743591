-- ===== src/Extractors.antt =====
-- extractors.rs: the user and the client of a request.
pub mod FromParts
use rustpress_plugin_authpro.Base.{String, str_eq, Bool, ◌||◌, Option, none, some}
use rustpress_plugin_authpro.Text.Trim.{before_comma, trim}
use rustpress_plugin_authpro.Models.{Uuid}
use rustpress_plugin_authpro.Models.Claims.{AccessTokenClaims}

-- Made of the claims of a valid access token.
pub record AuthUser : Type 0 where
  pub id : Uuid
  pub email : String
  pub name : String
  pub role : String

unfoldable pub from_claims : AccessTokenClaims → AuthUser
from_claims claims = record {
  id = claims.sub;
  email = claims.email;
  name = claims.name;
  role = claims.role;
}

-- `AuthUser::is_admin`, and the two other tests of the role
unfoldable pub is_admin : AuthUser → Bool
is_admin user = str_eq user.role "admin"

unfoldable pub can_publish : AuthUser → Bool
can_publish user =
    str_eq user.role "author" || str_eq user.role "editor" || str_eq user.role "admin"

unfoldable pub can_moderate : AuthUser → Bool
can_moderate user = str_eq user.role "editor" || str_eq user.role "admin"

pub record ClientInfo : Type 0 where
  pub ip : Option String
  pub user_agent : Option String

-- `s.split(',').next().unwrap_or(s).trim().to_string()`, or else X-Real-IP
abbrev client_ip : Option String → Option String → Option String
client_ip none real_ip = real_ip
client_ip (some forwarded) real_ip = some (trim (before_comma forwarded))

-- `ClientInfo::from_request_parts`. The headers are a function to the value that `to_str` reads,
-- which is visible ASCII, spaces and tabs.
unfoldable pub client_info : (String → Option String) → ClientInfo
client_info headers = record {
  ip = client_ip (headers "X-Forwarded-For") (headers "X-Real-IP");
  user_agent = headers "User-Agent";
}
