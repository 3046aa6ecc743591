-- ===== src/Plugin/Lifecycle.antt =====
-- The states of the plugin, over any sequence of activations and deactivations.
use rustpress_plugin_authpro.Base.{
  ℕ, ◌≡◌, refl, true, ◌⊎◌, inl, inr, String, Option, none, some, List, [], ◌∷◌,
}
use rustpress_plugin_authpro.Error.{Outcome, ok, err, panic}
use rustpress_plugin_authpro.Config.{AuthConfig, validate}
use rustpress_plugin_authpro.Config.Env.{from_env}
use rustpress_plugin_authpro.Config.Settings.{from_env-no_secret}
use rustpress_plugin_authpro.Plugin.Migrations.{Schema, run_migrations, Object, has}
use rustpress_plugin_authpro.Plugin.Migrations.Compatible.{IsCompatible}
use rustpress_plugin_authpro.Plugin.Migrations.Complete.{run_migrations_complete}
use rustpress_plugin_authpro.Plugin.{
  AuthPlugin, PgPool, inactive, active, new_plugin, new_service, start, configure, migrated,
  activate, deactivate,
}

-- Nothing is kept by an inactive plugin; an active one has a valid configuration, and a service of
-- that configuration and of its pool.
abbrev pub IsConsistent : AuthPlugin → Type 0
IsConsistent p =
    ((p.state ≡ inactive) × (p.config ≡ none) × (p.auth_service ≡ none) × (p.db ≡ none))
    ⊎ ((p.state ≡ active)
        × (c : AuthConfig) × (db : PgPool) × (p.config ≡ some c)
        × (p.auth_service ≡ some (new_service db c))
        × (p.db ≡ some db)
        × (validate c ≡ ok tt))

pub data Event : Type 0 where
  activates : (ℕ → Option String) → (String → Option String) → PgPool → Schema → Event
  deactivates : Event

unfoldable pub handle : Event → AuthPlugin → AuthPlugin
handle (activates fault env db schema) p = let (_, p', _) = activate fault env db schema p in p'
handle deactivates p = deactivate p

unfoldable pub handle_all : List Event → AuthPlugin → AuthPlugin
handle_all [] p = p
handle_all (e ∷ es) p = handle_all es (handle e p)

start-IsConsistent :
    (db : PgPool) (c : AuthConfig) (v : Outcome (Unit {0})) (p : AuthPlugin)
    → validate c ≡ v
    → IsConsistent p
    → IsConsistent (start db c v p).1
start-IsConsistent db c (ok _) p e h = inr (refl, c, db, refl, refl, refl, e)
start-IsConsistent db c (err _) p e h = h
start-IsConsistent db c (panic _) p e h = h

configure-IsConsistent :
    (db : PgPool) (c : Outcome AuthConfig) (p : AuthPlugin)
    → IsConsistent p
    → IsConsistent (configure db c p).1
configure-IsConsistent db (ok c) p h = start-IsConsistent db c (validate c) p refl h
configure-IsConsistent db (err _) p h = h
configure-IsConsistent db (panic _) p h = h

migrated-IsConsistent :
    (env : String → Option String) (db : PgPool) (r : Outcome (Unit {0})) (p : AuthPlugin)
    → IsConsistent p
    → IsConsistent (migrated env db r p).1
migrated-IsConsistent env db (ok _) p h = configure-IsConsistent db (from_env env) p h
migrated-IsConsistent env db (err _) p h = h
migrated-IsConsistent env db (panic _) p h = h

handle-IsConsistent : (e : Event) (p : AuthPlugin) → IsConsistent p → IsConsistent (handle e p)
unfolding handle activate deactivate
handle-IsConsistent (activates fault env db schema) p h =
    migrated-IsConsistent env db (run_migrations fault schema).0 p h
handle-IsConsistent deactivates p h = inl (refl, refl, refl, refl)

handle_all-keeps :
    (es : List Event) (p : AuthPlugin) → IsConsistent p → IsConsistent (handle_all es p)
unfolding handle_all
handle_all-keeps [] p h = h
handle_all-keeps (e ∷ es) p h = handle_all-keeps es (handle e p) (handle-IsConsistent e p h)

-- Whatever activations, failed or not, and deactivations a new plugin has seen, it is inactive and
-- keeps nothing, or it is active with a valid configuration and a service of that configuration and
-- of the pool it keeps. It is never in the state `Error`.
pub handle_all-IsConsistent : (es : List Event) → IsConsistent (handle_all es new_plugin)
unfolding new_plugin
handle_all-IsConsistent es = handle_all-keeps es new_plugin (inl (refl, refl, refl, refl))

-- Activation without JWT_SECRET panics, where the README speaks of an error, and does so after the
-- migrations: where these can run, the plugin is as it was, while every type, table and index is in
-- the database.
pub activate-no_secret :
    (fault : ℕ → Option String) (env : String → Option String) (db : PgPool) (s : Schema)
    (p : AuthPlugin)
    → ((n : ℕ) → fault n ≡ none)
    → env "JWT_SECRET" ≡ none
    → IsCompatible s
    → (s' : Schema) × (activate fault env db s p
        ≡ (panic "JWT_SECRET environment variable must be set", p, s'))
      × ((o : Object) → has o s' ≡ true)
unfolding activate
activate-no_secret fault env db s p healthy unset fit =
    let (s', done, _, made, _, _) = run_migrations_complete fault healthy s fit in
    (s', simp (done, from_env-no_secret env unset), made)
