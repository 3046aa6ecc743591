-- ===== src/Router/Traffic/Kept.antt =====
-- What no requests can break.
use rustpress_plugin_authpro.Base.{String, Option, List}
use rustpress_plugin_authpro.Config.{AuthConfig}
use rustpress_plugin_authpro.Externals.{Externals}
use rustpress_plugin_authpro.Exec.{World}
use rustpress_plugin_authpro.Handlers.Validation.{Validator}
use rustpress_plugin_authpro.RateLimit.Answers.{Limiter}
use rustpress_plugin_authpro.Safety.Kept.{IsSound, Kept, Moves-Kept}
use rustpress_plugin_authpro.Router.Traffic.{Incoming, serve_all}
use rustpress_plugin_authpro.Router.Traffic.Respects.{serve_all-Moves}

module _ (x : Externals) (c : AuthConfig) (v : Validator) (env : String → Option String)
    (limiter : Limiter) where
  -- Whatever requests come to whatever routes, and whatever they are answered, from tables that obey
  -- their keys and counts in their column's bounds: every user stays, with the same email, name, role
  -- and time of creation; each stored hash is the one from before, or argon2's of a password that
  -- meets the policy; sessions are opened under free identifiers and ended, and never come back or
  -- change hands; and the keys and the bounds hold after the requests.
  pub serve_all-keeps :
      (rs : List Incoming) (w : World)
      → IsSound w.db
      → Kept x c w.db (serve_all x c v env limiter rs w).db
  serve_all-keeps rs w =
      Moves-Kept x c w.db (serve_all x c v env limiter rs w).db
        (serve_all-Moves x c v env limiter rs w)
