-- ===== src/Models/Responses.antt =====
-- The response types of models.rs, and `impl From<User> for UserResponse`, also for `&User`.
use rustpress_plugin_authpro.Base.{String, Bool, Option}
use rustpress_plugin_authpro.Base.Int.{ℤ}
use rustpress_plugin_authpro.Models.{Uuid, Instant, User, is_email_verified}
use rustpress_plugin_authpro.Models.Roles.{UserRole}

pub record UserResponse : Type 0 where
  pub id : Uuid
  pub email : String
  pub name : String
  pub role : UserRole
  pub avatar : Option String
  pub bio : Option String
  pub website : Option String
  pub email_verified : Bool
  pub created_at : Instant

unfoldable pub from_user : User → UserResponse
unfolding is_email_verified
from_user u = record {
  id = u.id;
  email = u.email;
  name = u.name;
  role = u.role;
  avatar = u.avatar;
  bio = u.bio;
  website = u.website;
  email_verified = is_email_verified u;
  created_at = u.created_at;
}

pub record AuthResponse : Type 0 where
  pub user : UserResponse
  pub access_token : String
  pub refresh_token : String
  pub token_type : String
  pub expires_in : ℤ

pub record TokenResponse : Type 0 where
  pub access_token : String
  pub refresh_token : String
  pub token_type : String
  pub expires_in : ℤ

pub record MessageResponse : Type 0 where
  pub message : String
