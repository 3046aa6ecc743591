-- ===== src/Plugin/Interleaved.antt =====
-- An activation and a deactivation of lib.rs at once. Each of the four fields has a lock of its own,
-- which is taken for one write and let go, so that the four writes of the one come between the four
-- of the other.
pub mod Ends
pub mod Reached
use rustpress_plugin_authpro.Base.{
  ◌≡◌, refl, ap, ◌∙◌, sym, Bool, true, false, ◌&&◌, Option, none, some, List, [], ◌∷◌, is_some,
  arith,
}
use rustpress_plugin_authpro.Config.{AuthConfig}
use rustpress_plugin_authpro.Plugin.{
  AuthPlugin, PgPool, PluginState, inactive, active, new_service, store, deactivate,
}

pub data Task : Type 0 where
  activating deactivating : Task

pub data Field : Type 0 where
  db_field config_field service_field state_field : Field

-- The writes of a task, in the code's order.
abbrev pub writes : Task → List Field
writes activating = db_field ∷ (config_field ∷ (service_field ∷ (state_field ∷ [])))
writes deactivating = service_field ∷ (config_field ∷ (db_field ∷ (state_field ∷ [])))

-- One write, under the lock of its field.
unfoldable pub write : PgPool → AuthConfig → Task → Field → AuthPlugin → AuthPlugin
write pool c activating db_field p = record p { db = some pool }
write pool c activating config_field p = record p { config = some c }
write pool c activating service_field p = record p { auth_service = some (new_service pool c) }
write pool c activating state_field p = record p { state = active }
write pool c deactivating db_field p = record p { db = none }
write pool c deactivating config_field p = record p { config = none }
write pool c deactivating service_field p = record p { auth_service = none }
write pool c deactivating state_field p = record p { state = inactive }

-- The writes that are left to the two tasks, in some order that keeps the order of each.
pub data Schedule : List Field → List Field → Type 0 where
  done : Schedule [] []
  activation : {f : Field} {fs gs : List Field} → Schedule fs gs → Schedule (f ∷ fs) gs
  deactivation : {g : Field} {fs gs : List Field} → Schedule fs gs → Schedule fs (g ∷ gs)

unfoldable pub run :
    {fs gs : List Field} → PgPool → AuthConfig → Schedule fs gs → AuthPlugin → AuthPlugin
run pool c done p = p
run pool c (activation {f} s) p = run pool c s (write pool c activating f p)
run pool c (deactivation {g} s) p = run pool c s (write pool c deactivating g p)

-- What is left of an activation.
pub data Remains : Type 0 where
  nothing service service_and_config everything : Remains

abbrev pub left : Remains → PgPool → AuthConfig → PluginState → AuthPlugin → AuthPlugin
left nothing pool c s p = record p { db = none; config = none; auth_service = none; state = s }
left service pool c s p = record p {
  db = none;
  config = none;
  auth_service = some (new_service pool c);
  state = s;
}
left service_and_config pool c s p = record p {
  db = none;
  config = some c;
  auth_service = some (new_service pool c);
  state = s;
}
left everything pool c s p = record p {
  db = some pool;
  config = some c;
  auth_service = some (new_service pool c);
  state = s;
}

-- The state that a task sets.
abbrev pub state_after : Task → PluginState
state_after activating = active
state_after deactivating = inactive
