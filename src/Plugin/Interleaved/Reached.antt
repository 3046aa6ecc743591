-- ===== src/Plugin/Interleaved/Reached.antt =====
-- The orders that leave each of the ends of an activation and a deactivation at once.
use rustpress_plugin_authpro.Base.{◌≡◌, refl}
use rustpress_plugin_authpro.Config.{AuthConfig}
use rustpress_plugin_authpro.Plugin.{AuthPlugin, PgPool, inactive, active, store, deactivate}
use rustpress_plugin_authpro.Plugin.Interleaved.Ends.{run-left}
use rustpress_plugin_authpro.Plugin.Interleaved.{
  Task, activating, deactivating, writes, write, Schedule, done, activation, deactivation, run,
  Remains, nothing, service, service_and_config, everything, left, state_after,
}

abbrev reaching : Remains → Task → Schedule (writes activating) (writes deactivating)
reaching nothing activating = activation (
    activation
      (activation (deactivation (deactivation (deactivation (deactivation (activation done)))))))
reaching nothing deactivating = activation (
    activation
      (activation (activation (deactivation (deactivation (deactivation (deactivation done)))))))
reaching service activating = activation (
    activation
      (deactivation (activation (deactivation (deactivation (deactivation (activation done)))))))
reaching service deactivating = activation (
    activation
      (deactivation (activation (activation (deactivation (deactivation (deactivation done)))))))
reaching service_and_config activating = activation (
    deactivation
      (deactivation (activation (activation (deactivation (deactivation (activation done)))))))
reaching service_and_config deactivating = activation (
    deactivation
      (deactivation (activation (activation (activation (deactivation (deactivation done)))))))
reaching everything activating = deactivation (
    deactivation
      (deactivation (deactivation (activation (activation (activation (activation done)))))))
reaching everything deactivating = deactivation (
    deactivation
      (deactivation (activation (activation (activation (activation (deactivation done)))))))

run-reaching :
    (pool : PgPool) (c : AuthConfig) (p : AuthPlugin) (r : Remains) (t : Task)
    → run pool c (reaching r t) p ≡ left r pool c (state_after t) p
unfolding run write
run-reaching pool c p nothing activating = refl
run-reaching pool c p nothing deactivating = refl
run-reaching pool c p service activating = refl
run-reaching pool c p service deactivating = refl
run-reaching pool c p service_and_config activating = refl
run-reaching pool c p service_and_config deactivating = refl
run-reaching pool c p everything activating = refl
run-reaching pool c p everything deactivating = refl

-- An activation and a deactivation at once leave the plugin in one of eight ends, and each of them is
-- reached. The plugin is left with the activation's service if it is left with its configuration,
-- and with its configuration if with its pool, and is active or inactive: an active plugin without
-- a service is among the ends, and an inactive one that keeps everything. One after the other, they
-- can only leave an inactive plugin with nothing, or an active one with everything.
pub interleaved_ends :
    (pool : PgPool) (c : AuthConfig) (p : AuthPlugin)
    → ((s : Schedule (writes activating) (writes deactivating))
        → (r : Remains) × (t : Task) × (run pool c s p ≡ left r pool c (state_after t) p))
      × ((r : Remains) (t : Task)
          → (s : Schedule (writes activating) (writes deactivating)) × (run pool c s p
              ≡ left r pool c (state_after t) p))
      × (deactivate (store pool c p) ≡ left nothing pool c inactive p)
      × (store pool c (deactivate p) ≡ left everything pool c active p)
unfolding deactivate
interleaved_ends pool c p =
    (run-left pool c p, (λ r t. (reaching r t, run-reaching pool c p r t)), refl, refl)
