-- ===== src/Examples/Lifecycle.antt =====
-- The plugin's life cycle, and the writes of an activation and a deactivation.
use rustpress_plugin_authpro.Base.{
  ◌≡◌, refl, true, String, str_eq, Option, none, some, [], ◌∷◌, if◌then◌else◌,
}
use rustpress_plugin_authpro.Error.{err, panic, database}
use rustpress_plugin_authpro.Plugin.{new_plugin, activate}
use rustpress_plugin_authpro.Plugin.Migrations.{
  Object, Schema, created, has, user_role, users, create, run_all, run_migrations,
}
use rustpress_plugin_authpro.Examples.{settings}
use rustpress_plugin_authpro.Plugin.{inactive, active, store, deactivate}
use rustpress_plugin_authpro.Plugin.Interleaved.{
  Task, activating, deactivating, writes, Schedule, run, Remains, nothing, everything, left,
  state_after,
}
use rustpress_plugin_authpro.Plugin.Interleaved.Reached.{interleaved_ends}
use rustpress_plugin_authpro.Plugin.Lifecycle.{
  IsConsistent, activates, deactivates, handle_all, handle_all-IsConsistent, activate-no_secret,
}

abbrev half_done : Schema
half_done = created user_role ∷ []

-- A table `users` of another program, without the column that the second index is on.
abbrev foreign : Schema
foreign = record { object = users; columns = "id" ∷ "email" ∷ []; keys = "id" ∷ [] } ∷ []

run_migrations-foreign :
    (run_migrations (λ n. none) foreign).0 ≡ err (database "relation or column does not exist")
unfolding run_migrations run_all create
run_migrations-foreign = refl

abbrev environment : String → Option String
environment name =
    if str_eq name "JWT_SECRET" then some "an-example-secret-of-32-characters" else none

handle_all-IsConsistent_example :
    IsConsistent
      (handle_all (activates (λ n. none) environment 4 [] ∷ (deactivates ∷ [])) new_plugin)
handle_all-IsConsistent_example =
    handle_all-IsConsistent (activates (λ n. none) environment 4 [] ∷ (deactivates ∷ []))

activate-no_secret_example :
    (s' : Schema) × (activate (λ n. none) (λ name. none) 4 half_done new_plugin
      ≡ (panic "JWT_SECRET environment variable must be set", new_plugin, s'))
    × ((o : Object) → has o s' ≡ true)
activate-no_secret_example =
    activate-no_secret (λ n. none) (λ name. none) 4 half_done new_plugin (λ n. refl) refl refl

interleaved_ends_example :
    ((s : Schedule (writes activating) (writes deactivating))
      → (r : Remains) × (t : Task) × (run 4 settings s new_plugin
          ≡ left r 4 settings (state_after t) new_plugin))
    × ((r : Remains) (t : Task)
        → (s : Schedule (writes activating) (writes deactivating)) × (run 4 settings s new_plugin
            ≡ left r 4 settings (state_after t) new_plugin))
    × (deactivate (store 4 settings new_plugin) ≡ left nothing 4 settings inactive new_plugin)
    × (store 4 settings (deactivate new_plugin) ≡ left everything 4 settings active new_plugin)
interleaved_ends_example = interleaved_ends 4 settings new_plugin
