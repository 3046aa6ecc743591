-- ===== src/Exec/Stepping.antt =====
-- One step of a `do` block, run forward.
use rustpress_plugin_authpro.Base.{◌≡◌, refl, ap, suc, none}
use rustpress_plugin_authpro.Error.{AuthError, Outcome, ok, err, panic}
use rustpress_plugin_authpro.Models.{Instant}
use rustpress_plugin_authpro.Db.{Db, Sql, done}
use rustpress_plugin_authpro.Externals.{Externals}
use rustpress_plugin_authpro.Exec.{World, Exec, run_sql, continue, ◌>>=◌}

module _ {A B : Type 0} where
  -- A statement that is answered.
  pub run_sql-bind :
      (x : Externals) (statement : Instant → Db → Sql A) (f : A → Exec B) (w : World) (a : A)
      (d : Db)
      → x.db_fault w.step ≡ none
      → statement (x.db_now w.step) w.db ≡ done a d
      → (run_sql x statement >>= f) w ≡ f a (record { db = d; step = suc w.step })
  unfolding ◌>>=◌
  run_sql-bind x statement f w a d healthy answered = simp (healthy, answered)

  -- An action that returned.
  pub bind-of_returns :
      (m : Exec A) (f : A → Exec B) (w w' : World) (a : A) → m w ≡ (ok a, w') → (m >>= f) w ≡ f a w'
  unfolding ◌>>=◌
  bind-of_returns m f w w' a e = ap (λ r. continue r.0 f r.1) e

  -- An action that failed.
  pub bind-of_fails :
      (m : Exec A) (f : A → Exec B) (w w' : World) (e : AuthError)
      → m w ≡ (err e, w')
      → (m >>= f) w ≡ (err e, w')
  unfolding ◌>>=◌
  bind-of_fails m f w w' e failed = ap (λ r. continue r.0 f r.1) failed

  -- A block in a block: what the inner one does step by step, and then the rest.
  pub bind-nest :
      {C : Type 0} (m : Exec A) (f : A → Exec B) (g : B → Exec C) (h : A → Exec C) (w : World)
      → ((a : A) (v : World) → (f a >>= g) v ≡ h a v)
      → (m >>= f >>= g) w ≡ (m >>= h) w
  unfolding ◌>>=◌
  bind-nest m f g h w same = nested (m w).0 (m w).1
    where
      nested :
          (r : Outcome A) (v : World)
          → continue (continue r f v).0 g (continue r f v).1 ≡ continue r h v
      nested (ok a) v = same a v
      nested (err e) v = refl
      nested (panic p) v = refl
