-- ===== src/Service/Calls.antt =====
-- Any sequence of calls of the service's public methods, each on the tables that the last one left.
-- `Respects` shows that a relation which every statement of the code keeps is kept by all of them.
pub mod Statements
pub mod Sessions
pub mod Respects
pub mod Tables
pub mod TokenTables
pub mod PerUser
pub mod Histories
use rustpress_plugin_authpro.Base.{String, Option, List, [], ◌∷◌}
use rustpress_plugin_authpro.Models.{Uuid}
use rustpress_plugin_authpro.Models.Requests.{
  LoginRequest, RegisterRequest, ResetPasswordRequest, ChangePasswordRequest,
}
use rustpress_plugin_authpro.Config.{AuthConfig}
use rustpress_plugin_authpro.Externals.{Externals}
use rustpress_plugin_authpro.Exec.{World}
use rustpress_plugin_authpro.Service.Account.{
  register, change_password, get_user, get_user_by_email,
}
use rustpress_plugin_authpro.Service.Login.{login}
use rustpress_plugin_authpro.Service.Refresh.{logout, refresh_tokens}
use rustpress_plugin_authpro.Service.Reset.{forgot_password, reset_password}
use rustpress_plugin_authpro.Service.Verification.{create_email_verification, verify_email}

pub data Call : Type 0 where
  registers : RegisterRequest → Call
  logs_in : LoginRequest → Option String → Option String → Call
  logs_out : String → Call
  refreshes : String → Option String → Option String → Call
  forgets_password : String → Call
  resets_password : ResetPasswordRequest → Call
  changes_password : Uuid → ChangePasswordRequest → Call
  asks_verification : Uuid → Call
  verifies_email : String → Call
  gets_user : Uuid → Call
  gets_user_by_email : String → Call

module _ (x : Externals) (c : AuthConfig) where
  -- The world after a call, whatever it answered.
  unfoldable pub perform : Call → World → World
  perform (registers req) w = (register x c req w).1
  perform (logs_in req ip agent) w = (login x c req ip agent w).1
  perform (logs_out token) w = (logout x c token w).1
  perform (refreshes token ip agent) w = (refresh_tokens x c token ip agent w).1
  perform (forgets_password email) w = (forgot_password x c email w).1
  perform (resets_password req) w = (reset_password x c req w).1
  perform (changes_password id req) w = (change_password x c id req w).1
  perform (asks_verification id) w = (create_email_verification x c id w).1
  perform (verifies_email token) w = (verify_email x c token w).1
  perform (gets_user id) w = (get_user x id w).1
  perform (gets_user_by_email email) w = (get_user_by_email x email w).1

  unfoldable pub run : List Call → World → World
  run [] w = w
  run (call ∷ calls) w = run calls (perform call w)
