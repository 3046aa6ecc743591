-- ===== src/Plugin.antt =====
-- lib.rs: the life cycle of the plugin.
pub mod Migrations
pub mod Lifecycle
pub mod Interleaved
use Migrations.{Schema, run_migrations}
use rustpress_plugin_authpro.Base.{ℕ, String, Option, none, some}
use rustpress_plugin_authpro.Error.{Outcome, ok, err, panic, AuthError}
use rustpress_plugin_authpro.Config.{AuthConfig, validate}
use rustpress_plugin_authpro.Config.Env.{from_env}

pub data PluginState : Type 0 where
  inactive active error : PluginState

pub record PluginInfo : Type 0 where
  pub id : String
  pub name : String
  pub version : String
  pub description : String

-- A handle of a pool of connections.
abbrev pub PgPool : Type 0
PgPool = ℕ

-- `AuthService`: its keys are made of the secret of the configuration.
pub record AuthService : Type 0 where
  pub db : PgPool
  pub config : AuthConfig
  pub encoding_key : String
  pub decoding_key : String

-- `AuthService::new`
unfoldable pub new_service : PgPool → AuthConfig → AuthService
new_service db config = record {
  db = db;
  config = config;
  encoding_key = config.jwt_secret;
  decoding_key = config.jwt_secret;
}

pub record AuthPlugin : Type 0 where
  pub info : PluginInfo
  pub state : PluginState
  pub config : Option AuthConfig
  pub auth_service : Option AuthService
  pub db : Option PgPool

-- `AuthPlugin::new`, with the version of the crate.
unfoldable pub new_plugin : AuthPlugin
new_plugin = record {
  info = record {
    id = "rustpress-auth";
    name = "RustPress Authentication";
    version = "0.9.0-beta.1";
    description = "Core authentication system for RustPress";
  };
  state = inactive;
  config = none;
  auth_service = none;
  db = none;
}

-- The four writes at the end of `activate`.
abbrev pub store : PgPool → AuthConfig → AuthPlugin → AuthPlugin
store db config p = record p {
  db = some db;
  config = some config;
  auth_service = some (new_service db config);
  state = active;
}

-- From `config.validate()?` on.
abbrev pub start :
    PgPool → AuthConfig → Outcome (Unit {0}) → AuthPlugin → Outcome (Unit {0}) × AuthPlugin
start db config (ok _) p = (ok tt, store db config p)
start db config (err e) p = (err e, p)
start db config (panic m) p = (panic m, p)

-- From `AuthConfig::from_env()` on.
abbrev pub configure : PgPool → Outcome AuthConfig → AuthPlugin → Outcome (Unit {0}) × AuthPlugin
configure db (ok config) p = start db config (validate config) p
configure db (err e) p = (err e, p)
configure db (panic m) p = (panic m, p)

abbrev pub migrated :
    (String → Option String)
    → PgPool
    → Outcome (Unit {0})
    → AuthPlugin
    → Outcome (Unit {0}) × AuthPlugin
migrated env db (ok _) p = configure db (from_env env) p
migrated env db (err e) p = (err e, p)
migrated env db (panic m) p = (panic m, p)

-- The plugin and the schema of the database that it is given.
unfoldable pub activate :
    (ℕ → Option String)
    → (String → Option String)
    → PgPool
    → Schema
    → AuthPlugin
    → Outcome (Unit {0}) × AuthPlugin × Schema
unfolding new_service
activate fault env db schema p =
    let (outcome, schema') = run_migrations fault schema in
    let (result, p') = migrated env db outcome p in (result, p', schema')

unfoldable pub deactivate : AuthPlugin → AuthPlugin
deactivate p = record p { auth_service = none; config = none; db = none; state = inactive }

-- Always `None`: the routes are made by `create_routes`.
unfoldable pub routes : AuthPlugin → Option (Unit {0})
routes p = none
