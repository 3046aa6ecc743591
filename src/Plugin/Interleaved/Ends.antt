-- ===== src/Plugin/Interleaved/Ends.antt =====
-- What an activation and a deactivation at once leave of the plugin.
use rustpress_plugin_authpro.Base.{
  ◌≡◌, refl, ap, ◌∙◌, Bool, true, ◌&&◌, Option, none, some, List, [], ◌∷◌, is_some, arith,
}
use rustpress_plugin_authpro.Config.{AuthConfig}
use rustpress_plugin_authpro.Plugin.{AuthPlugin, PgPool, inactive, active, new_service}
use rustpress_plugin_authpro.Plugin.Interleaved.{
  Task, activating, deactivating, Field, db_field, config_field, service_field, state_field, writes,
  write, Schedule, done, activation, deactivation, run, Remains, nothing, service,
  service_and_config, everything, left, state_after,
}

-- The task that wrote each field last.
record Written : Type 0 where
  db : Option Task
  config : Option Task
  service : Option Task
  state : Option Task

abbrev untouched : Written
untouched = record { db = none; config = none; service = none; state = none }

abbrev mark : Task → Field → Written → Written
mark t db_field o = record o { db = some t }
mark t config_field o = record o { config = some t }
mark t service_field o = record o { service = some t }
mark t state_field o = record o { state = some t }

abbrev pick : {A : Type 0} → A → A → A → Option Task → A
pick old set cleared none = old
pick old set cleared (some activating) = set
pick old set cleared (some deactivating) = cleared

-- Which of the writes to the pool, the configuration and the service can have been the last.
abbrev remains : Option Task → Option Task → Option Task → Option Remains
remains (some activating) (some activating) (some activating) = some everything
remains (some deactivating) (some activating) (some activating) = some service_and_config
remains (some deactivating) (some deactivating) (some activating) = some service
remains (some deactivating) (some deactivating) (some deactivating) = some nothing
remains _ _ _ = none

module _ (pool : PgPool) (c : AuthConfig) (p : AuthPlugin) where
  abbrev render : Written → AuthPlugin
  render o = record p {
    db = pick p.db (some pool) none o.db;
    config = pick p.config (some c) none o.config;
    auth_service = pick p.auth_service (some (new_service pool c)) none o.service;
    state = pick p.state active inactive o.state;
  }

  write-render :
      (t : Task) (f : Field) (o : Written) → write pool c t f (render o) ≡ render (mark t f o)
  unfolding write
  write-render activating db_field o = refl
  write-render activating config_field o = refl
  write-render activating service_field o = refl
  write-render activating state_field o = refl
  write-render deactivating db_field o = refl
  write-render deactivating config_field o = refl
  write-render deactivating service_field o = refl
  write-render deactivating state_field o = refl

  remains-left :
      (d k s : Option Task) (t : Task) (r : Remains)
      → remains d k s ≡ some r
      → render (record { db = d; config = k; service = s; state = some t })
        ≡ left r pool c (pick p.state active inactive (some t)) p
  remains-left d k s t r e = ground arith

abbrev final : {fs gs : List Field} → Schedule fs gs → Written → Written
final done o = o
final (activation {f} s) o = final s (mark activating f o)
final (deactivation {g} s) o = final s (mark deactivating g o)

-- The test holds at the end of every schedule.
abbrev every : (Written → Bool) → List Field → List Field → Written → Bool
every test [] [] o = test o
every test (f ∷ fs) [] o = every test fs [] (mark activating f o)
every test [] (g ∷ gs) o = every test [] gs (mark deactivating g o)
every test (f ∷ fs) (g ∷ gs) o =
    every test fs (g ∷ gs) (mark activating f o) && every test (f ∷ fs) gs (mark deactivating g o)

every-final :
    (test : Written → Bool) {fs gs : List Field} (s : Schedule fs gs) (o : Written)
    → every test fs gs o ≡ true
    → test (final s o) ≡ true
every-final test done o e = e
every-final test {fs = f ∷ fs} {gs = []} (activation s) o e =
    every-final test s (mark activating f o) e
every-final test {fs = f ∷ fs} {gs = g ∷ gs} (activation s) o e =
    every-final test s (mark activating f o) (ground arith)
every-final test {fs = []} {gs = g ∷ gs} (deactivation s) o e =
    every-final test s (mark deactivating g o) e
every-final test {fs = f ∷ fs} {gs = g ∷ gs} (deactivation s) o e =
    every-final test s (mark deactivating g o) (ground arith)

abbrev settled : Written → Bool
settled o = is_some (remains o.db o.config o.service) && is_some o.state

settled-final :
    (s : Schedule (writes activating) (writes deactivating)) → settled (final s untouched) ≡ true
settled-final s = every-final settled s untouched refl

is_some-some : {A : Type 0} (m : Option A) → is_some m ≡ true → (a : A) × (m ≡ some a)
is_some-some (some a) e = (a, refl)
is_some-some none e = ground arith

module _ (pool : PgPool) (c : AuthConfig) (p : AuthPlugin) where
  run-render :
      {fs gs : List Field} (s : Schedule fs gs) (o : Written)
      → run pool c s (render pool c p o) ≡ render pool c p (final s o)
  unfolding run
  run-render done o = refl
  run-render (activation {f} s) o =
      ap (run pool c s) (write-render pool c p activating f o) ∙ run-render s (mark activating f o)
  run-render (deactivation {g} s) o =
      ap (run pool c s) (write-render pool c p deactivating g o)
      ∙ run-render s (mark deactivating g o)

  settled-left :
      (d k s t : Option Task)
      → (is_some (remains d k s) && is_some t) ≡ true
      → (r : Remains) × (last : Task) × (render pool c p
            (record { db = d; config = k; service = s; state = t })
          ≡ left r pool c (state_after last) p)
  settled-left d k s none e = ground arith
  settled-left d k s (some activating) e =
      let (r, kept) = is_some-some (remains d k s) (ground arith) in
      (r, activating, remains-left pool c p d k s activating r kept)
  settled-left d k s (some deactivating) e =
      let (r, kept) = is_some-some (remains d k s) (ground arith) in
      (r, deactivating, remains-left pool c p d k s deactivating r kept)

  pub run-left :
      (s : Schedule (writes activating) (writes deactivating))
      → (r : Remains) × (t : Task) × (run pool c s p ≡ left r pool c (state_after t) p)
  run-left s =
      let (r, t, e) = settled-left _ _ _ _ (settled-final s) in (r, t, run-render s untouched ∙ e)
