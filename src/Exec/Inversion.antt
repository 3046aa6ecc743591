-- ===== src/Exec/Inversion.antt =====
-- What is known when an action has returned a value: every part of it has.
use rustpress_plugin_authpro.Base.{
  ℕ, suc, String, Bool, true, false, ◌≡◌, refl, ap, sym, subst, Option, none, some, arith,
}
use rustpress_plugin_authpro.Error.{Outcome, ok, err, panic, AuthError, ok_or}
use rustpress_plugin_authpro.Models.{Instant}
use rustpress_plugin_authpro.Db.{Db, Sql, done}
use rustpress_plugin_authpro.Externals.{Externals}
use rustpress_plugin_authpro.Exec.{
  World, Exec, tick, pure, lift, draw, answer, run_sql, fail_if, continue, ◌>>=◌,
}

-- `m` started at `w` returns `a` and leaves `w'`.
abbrev pub Returns : {A : Type 0} → Exec A → World → A → World → Type 0
Returns m w a w' = m w ≡ (ok a, w')

module _ {A B : Type 0} where
  continue-ok :
      (r : Outcome A) (f : A → Exec B) (w w' : World) (b : B)
      → continue r f w ≡ (ok b, w')
      → (a : A) × (r ≡ ok a) × (f a w ≡ (ok b, w'))
  continue-ok (ok a) f w w' b e = (a, refl, e)
  continue-ok (err x) f w w' b e = cc
  continue-ok (panic x) f w w' b e = cc

  pub Returns-bind :
      (m : Exec A) (f : A → Exec B) (w w' : World) (b : B)
      → Returns (m >>= f) w b w'
      → (a : A) × (v : World) × Returns m w a v × Returns (f a) v b w'
  unfolding ◌>>=◌
  Returns-bind m f w w' b e =
      let (a, p, q) = continue-ok (m w).0 f (m w).1 w' b e in
      (a, (m w).1, ap (λ r. (r, (m w).1)) p, q)

module _ {A : Type 0} where
  pub Returns-run_sql :
      (x : Externals) (statement : Instant → Db → Sql A) (w w' : World) (a : A)
      → Returns (run_sql x statement) w a w'
      → (statement (x.db_now w.step) w.db ≡ done a w'.db) × (w'.step ≡ suc w.step)
  unfolding run_sql
  Returns-run_sql x statement w w' a e = ground arith

  pub Returns-lift :
      (r : Outcome A) (w w' : World) (a : A) → Returns (lift r) w a w' → (r ≡ ok a) × (w' ≡ w)
  unfolding lift
  Returns-lift r w w' a e = (ap (λ p. p.0) e, sym (ap (λ p. p.1) e))

  pub Returns-pure : (b : A) (w w' : World) (a : A) → Returns (pure b) w a w' → (a ≡ b) × (w' ≡ w)
  unfolding pure
  Returns-pure b w w' a e = (cc, sym (ap (λ p. p.1) e))

  pub Returns-draw :
      (source : ℕ → A) (w w' : World) (a : A)
      → Returns (draw source) w a w'
      → (a ≡ source w.step) × (w' ≡ tick w)
  unfolding draw
  Returns-draw source w w' a e = (cc, sym (ap (λ p. p.1) e))

pub Returns-fail_if :
    (test : Bool) (e : AuthError) (w w' : World) (a : Unit {0})
    → Returns (fail_if test e) w a w'
    → (test ≡ false) × (w' ≡ w)
unfolding fail_if
Returns-fail_if test e w w' a h = (ground arith, sym (ap (λ p. p.1) h))

-- The first action of a `do` block that returned, taken off.
module _ {A B : Type 0} (w w' : World) (b : B) where
  pub bind-lift :
      (r : Outcome A) (f : A → Exec B)
      → Returns (lift r >>= f) w b w'
      → (a : A) × (r ≡ ok a) × Returns (f a) w b w'
  unfolding ◌>>=◌
  bind-lift r f e = continue-ok r f w w' b e

  pub bind-draw :
      (source : ℕ → A) (f : A → Exec B)
      → Returns (draw source >>= f) w b w'
      → Returns (f (source w.step)) (tick w) b w'
  unfolding ◌>>=◌
  bind-draw source f e = e

  pub bind-run_sql :
      (x : Externals) (statement : Instant → Db → Sql A) (f : A → Exec B)
      → Returns (run_sql x statement >>= f) w b w'
      → (a : A) × (d : Db) × (statement (x.db_now w.step) w.db ≡ done a d)
        × Returns (f a) (record { db = d; step = suc w.step }) b w'
  bind-run_sql x statement f e =
      let (a, v, first, rest) = Returns-bind (run_sql x statement) f w w' b e in
      let (asked, stepped) = Returns-run_sql x statement w v a first in
      (
        a,
        v.db,
        asked,
        subst (λ s. Returns (f a) (record { db = v.db; step = s }) b w') stepped rest,
      )

  pub bind-ok_or :
      (o : Option A) (x : AuthError) (f : A → Exec B)
      → Returns (lift (ok_or o x) >>= f) w b w'
      → (a : A) × (o ≡ some a) × Returns (f a) w b w'
  unfolding ◌>>=◌
  bind-ok_or none x f e = cc
  bind-ok_or (some a) x f e = (a, refl, e)

  -- A SELECT, which is its answer as a function of NOW() and the tables.
  pub bind-select :
      (x : Externals) (rows : Instant → Db → A) (f : A → Exec B)
      → Returns (run_sql x (λ now d. done (rows now d) d) >>= f) w b w'
      → Returns (f (rows (x.db_now w.step) w.db)) (tick w) b w'
  unfolding ◌>>=◌
  bind-select x rows f e = asked (x.db_fault w.step) e
    where
      asked :
          (fault : Option String)
          → continue
              (answer fault (done (rows (x.db_now w.step) w.db) w.db) (tick w)).0
              f
              (answer fault (done (rows (x.db_now w.step) w.db) w.db) (tick w)).1
            ≡ (ok b, w')
          → Returns (f (rows (x.db_now w.step) w.db)) (tick w) b w'
      asked none e = e
      asked (some m) e = cc

pub bind-fail_if :
    {B : Type 0} (w w' : World) (b : B) (test : Bool) (x : AuthError) (f : Unit {0} → Exec B)
    → Returns (fail_if test x >>= f) w b w'
    → (test ≡ false) × Returns (f tt) w b w'
unfolding ◌>>=◌
bind-fail_if w w' b false x f e = (refl, e)
bind-fail_if w w' b true x f e = cc
