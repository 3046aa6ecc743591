-- ===== src/Router/Traffic.antt =====
-- Any sequence of requests to the routes of handlers.rs, each on the tables that the last one left.
pub mod Respects
pub mod Once
pub mod Kept
use rustpress_plugin_authpro.Base.{String, Option, List, [], ◌∷◌}
use rustpress_plugin_authpro.Config.{AuthConfig}
use rustpress_plugin_authpro.Externals.{Externals}
use rustpress_plugin_authpro.Exec.{Exec, World}
use rustpress_plugin_authpro.Handlers.Validation.{Validator}
use rustpress_plugin_authpro.RateLimit.Answers.{GovernorError, Limiter}
use rustpress_plugin_authpro.Router.Serve.{
  Limited, Public, Protected, Reply, handle_public, serve_limited, serve_protected,
}

-- A request to a route of one of the three groups, with its headers where the route reads them, and
-- the verdict of the limiter where it is asked.
pub data Incoming : Type 0 where
  limited : Option GovernorError → (String → Option String) → Limited → Incoming
  public_unlimited : Public → Incoming
  protected : (String → Option String) → Protected → Incoming

module _ (x : Externals) (c : AuthConfig) (v : Validator) (env : String → Option String)
    (limiter : Limiter) where
  unfoldable pub serve : Incoming → Exec Reply
  serve (limited verdict headers req) = serve_limited x c v limiter verdict headers req
  serve (public_unlimited req) = handle_public x c v req
  serve (protected headers req) = serve_protected x c v env headers req

  unfoldable pub serve_all : List Incoming → World → World
  serve_all [] w = w
  serve_all (r ∷ rs) w = serve_all rs (serve r w).1
