-- ===== src/Exec/Respects.antt =====
-- Relations between the tables before and after an action, with one rule for each way to build an
-- action. A preorder that every statement respects is respected by every method, on every path.
use rustpress_plugin_authpro.Base.{ℕ, String, Bool, ◌≡◌, refl, Option, none, some}
use rustpress_plugin_authpro.Error.{Outcome, ok, err, panic, AuthError}
use rustpress_plugin_authpro.Models.{Instant}
use rustpress_plugin_authpro.Db.{Db, Sql, done, fail}
use rustpress_plugin_authpro.Externals.{Externals}
use rustpress_plugin_authpro.Exec.{
  World, Exec, tick, pure, lift, draw, settle, answer, run_sql, fail_if, continue, ◌>>=◌,
}

pub record IsPreorder (R : Db → Db → Type 0) : Type 0 where
  pub same : (d : Db) → R d d
  pub next : (a b c : Db) → R a b → R b c → R a c

-- Whatever `m` ends with, the tables after it are related to those before it.
pub record Respects {A : Type 0} (R : Db → Db → Type 0) (m : Exec A) : Type 0 where
  pub at : (w : World) → R w.db (m w).1.db

-- A statement that is answered moves the tables along the relation.
abbrev pub Keeps : {A : Type 0} → (Db → Db → Type 0) → (Instant → Db → Sql A) → Type 0
Keeps {A} R statement = (now : Instant) (d d' : Db) (a : A) → statement now d ≡ done a d' → R d d'

module _ {R : Db → Db → Type 0} (pre : IsPreorder R) where
  module _ {A : Type 0} where
    pub Respects-pure : (a : A) → Respects R (pure a)
    unfolding pure
    Respects-pure a = record { at = λ w. pre.same w.db }

    pub Respects-lift : (r : Outcome A) → Respects R (lift r)
    unfolding lift
    Respects-lift r = record { at = λ w. pre.same w.db }

    pub Respects-draw : (source : ℕ → A) → Respects R (draw source)
    unfolding draw
    Respects-draw source = record { at = λ w. pre.same w.db }

    Respects-settle :
        (reply : Sql A) (w : World)
        → ((d : Db) (a : A) → reply ≡ done a d → R w.db d)
        → R w.db (settle reply w).1.db
    Respects-settle (done a d) w h = h d a refl
    Respects-settle (fail m) w h = pre.same w.db

    Respects-answer :
        (fault : Option String) (reply : Sql A) (w : World)
        → ((d : Db) (a : A) → reply ≡ done a d → R w.db d)
        → R w.db (answer fault reply w).1.db
    Respects-answer none reply w h = Respects-settle reply w h
    Respects-answer (some m) reply w h = pre.same w.db

    pub Respects-run_sql :
        (x : Externals) (statement : Instant → Db → Sql A)
        → Keeps R statement
        → Respects R (run_sql x statement)
    unfolding run_sql
    Respects-run_sql x statement keeps = record {
      at = λ w.
          Respects-answer (x.db_fault w.step) (statement (x.db_now w.step) w.db) (tick w)
            (λ d a e. keeps (x.db_now w.step) w.db d a e);
    }

  pub Respects-fail_if : (test : Bool) (e : AuthError) → Respects R (fail_if test e)
  unfolding fail_if
  Respects-fail_if test e = record { at = λ w. pre.same w.db }

  module _ {A B : Type 0} where
    Respects-continue :
        (d : Db) (r : Outcome A) (f : A → Exec B) (w : World)
        → R d w.db
        → ((a : A) → Respects R (f a))
        → R d (continue r f w).1.db
    Respects-continue d (ok a) f w h k = pre.next d w.db (f a w).1.db h ((k a).at w)
    Respects-continue d (err e) f w h k = h
    Respects-continue d (panic m) f w h k = h

    pub Respects-bind :
        (m : Exec A) (f : A → Exec B)
        → Respects R m
        → ((a : A) → Respects R (f a))
        → Respects R (m >>= f)
    unfolding ◌>>=◌
    Respects-bind m f hm hf = record {
      at = λ w. Respects-continue w.db (m w).0 f (m w).1 (hm.at w) hf;
    }

    -- The value of a result, where its rest needs to know where it comes from.
    pub Respects-bind_lift :
        (r : Outcome A) (f : A → Exec B)
        → ((a : A) → r ≡ ok a → Respects R (f a))
        → Respects R (lift r >>= f)
    unfolding ◌>>=◌ lift
    Respects-bind_lift (ok a) f hf = record { at = λ w. (hf a refl).at w }
    Respects-bind_lift (err e) f hf = record { at = λ w. pre.same w.db }
    Respects-bind_lift (panic m) f hf = record { at = λ w. pre.same w.db }

pub ruleset respects_rules =
    (Respects-pure, Respects-lift, Respects-draw, Respects-fail_if, Respects-run_sql, Respects-bind)
