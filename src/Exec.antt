-- ===== src/Exec.antt =====
-- An async method of the service as an action: it runs on the tables, takes what it draws from the
-- externals in order, and ends with a value, an `AuthError` or a panic. There is no transaction in
-- the code, so what was written before an error or a panic stays written.
pub mod Respects
pub mod Inversion
pub mod Stepping
use rustpress_plugin_authpro.Base.{ℕ, suc, String, Bool, Option, none, some, if◌then◌else◌}
use rustpress_plugin_authpro.Error.{Outcome, ok, err, panic, AuthError, database}
use rustpress_plugin_authpro.Models.{Instant}
use rustpress_plugin_authpro.Db.{Db, Sql, done, fail}
use rustpress_plugin_authpro.Externals.{Externals}

-- `step` counts the external calls made so far.
pub record World : Type 0 where
  pub db : Db
  pub step : ℕ

abbrev pub Exec : Type 0 → Type 0
Exec A = World → Outcome A × World

abbrev pub tick : World → World
tick w = record w { step = suc w.step }

module _ {A : Type 0} where
  unfoldable pub pure : A → Exec A
  pure a w = (ok a, w)

  -- A result that needs no external call, with `?` behind it.
  unfoldable pub lift : Outcome A → Exec A
  lift r w = (r, w)

  -- One draw from the externals.
  unfoldable pub draw : (ℕ → A) → Exec A
  draw source w = (ok (source w.step), tick w)

  abbrev pub settle : Sql A → World → Outcome A × World
  settle (done a db) w = (ok a, record w { db = db })
  settle (fail message) w = (err (database message), w)

  abbrev pub answer : Option String → Sql A → World → Outcome A × World
  answer (some message) reply w = (err (database message), w)
  answer none reply w = settle reply w

  -- `sqlx::query(…).execute(&self.db).await?`, and so for `fetch_optional` and `fetch_one`.
  unfoldable pub run_sql : Externals → (Instant → Db → Sql A) → Exec A
  run_sql x statement w = answer (x.db_fault w.step) (statement (x.db_now w.step) w.db) (tick w)

-- `if test { return Err(e) }`
unfoldable pub fail_if : Bool → AuthError → Exec (Unit {0})
fail_if test e w = (if test then err e else ok tt, w)

module _ {A B : Type 0} where
  abbrev pub continue : Outcome A → (A → Exec B) → Exec B
  continue (ok a) f w = f a w
  continue (err e) f w = (err e, w)
  continue (panic m) f w = (panic m, w)

  infixl 5 ◌>>=◌ ◌>>◌
  -- Opening this opens the single steps too.
  unfoldable pub ◌>>=◌ : Exec A → (A → Exec B) → Exec B
  unfolding pure lift draw run_sql fail_if
  ◌>>=◌ m f w = let (r, w') = m w in continue r f w'

  abbrev pub ◌>>◌ : Exec A → Exec B → Exec B
  m >> n = m >>= λ _. n
