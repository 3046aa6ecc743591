-- ===== src/Examples/Keys.antt =====
-- The keys of the tables and the store of sessions, over calls that insert into three of the tables.
use rustpress_plugin_authpro.Base.{refl, none, arith, List, [], ◌∷◌}
use rustpress_plugin_authpro.Service.Calls.{
  Call, registers, logs_in, refreshes, forgets_password, run,
}
use rustpress_plugin_authpro.Safety.Sessions.{Steps}
use rustpress_plugin_authpro.Safety.Sessions.Rows.{sessions, run-Steps}
use rustpress_plugin_authpro.Safety.Frame.{users, Same, run-Same}
use rustpress_plugin_authpro.Safety.Schema.{ObeysKeys}
use rustpress_plugin_authpro.Safety.Kept.{IsSound, Kept}
use rustpress_plugin_authpro.Safety.Histories.{execute_all-Kept}
use rustpress_plugin_authpro.Service.Calls.Histories.{
  revokes_token, records_failure, inserts_refresh_token, History, execute_all,
}
use rustpress_plugin_authpro.Text.{hex_u64}
use rustpress_plugin_authpro.Examples.{world_outside, settings, start}

abbrev pub calls : List Call
calls =
    registers (record {
      email = "bob@example.org";
      password = "Aa1";
      password_confirm = "Aa1";
      name = "Bob";
    })
    ∷ logs_in (record { email = "alice@example.org"; password = "Aa1" }) none none
    ∷ refreshes "jwt.ab" none none
    ∷ forgets_password "alice@example.org"
    ∷ []

pub start_obeys : ObeysKeys start.db
unfolding hex_u64
start_obeys = record {
  users_unique = refl;
  refresh_unique = refl;
  resets_unique = refl;
  verifications_unique = refl;
  owners = (λ k named. named, λ k named. cc, λ k named. cc);
}

pub start-IsSound : IsSound start.db
start-IsSound = record { keys = start_obeys; counts = λ id. ground arith }

-- Of two refreshes at once, and a login with a wrong password between.
abbrev history : History world_outside settings
history =
    (1100, revokes_token 7)
    ∷ (1101, records_failure 1)
    ∷ (1102, revokes_token 7)
    ∷ (1103, inserts_refresh_token 21 1 "ef" 605000 none none)
    ∷ (1104, inserts_refresh_token 22 1 "cd" 605000 none none)
    ∷ []

execute_all-Kept_example :
    Kept world_outside settings start.db (execute_all world_outside settings history start.db)
execute_all-Kept_example = execute_all-Kept world_outside settings history start.db start-IsSound

run-Steps_example :
    Steps
      (sessions start.db.refresh_tokens)
      (sessions (run world_outside settings calls start).db.refresh_tokens)
run-Steps_example = run-Steps world_outside settings calls start

run-Same_example :
    Same users start.db
      (run world_outside settings
        (refreshes "jwt.ab" none none ∷ forgets_password "alice@example.org" ∷ [])
        start).db
run-Same_example =
    run-Same world_outside settings users
      (refreshes "jwt.ab" none none ∷ forgets_password "alice@example.org" ∷ []) start
      (refl, (refl, tt))
