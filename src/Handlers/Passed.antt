-- ===== src/Handlers/Passed.antt =====
-- A request whose validation passed.
use rustpress_plugin_authpro.Base.{◌≡◌, subst, List, [], ◌∷◌}
use rustpress_plugin_authpro.Exec.{Exec, World, ◌>>=◌}
use rustpress_plugin_authpro.Exec.Inversion.{Returns, Returns-pure, Returns-lift, Returns-bind}
use rustpress_plugin_authpro.Handlers.Validation.{Failure, Validator, validated}

module _ (v : Validator) where
  -- It has written nothing.
  pub validated-Returns :
      (fs : List Failure) (w w' : World) (a : Unit {0}) → Returns (validated v fs) w a w' → w' ≡ w
  unfolding validated
  validated-Returns [] w w' a e = (Returns-pure tt w w' a e).1
  validated-Returns (f ∷ fs) w w' a e = cc ((Returns-lift _ w w' a e).0)

  -- The rest of its handler returned.
  pub bind-validated :
      {B : Type 0} (fs : List Failure) (f : Unit {0} → Exec B) (w w' : World) (b : B)
      → Returns (validated v fs >>= f) w b w'
      → Returns (f tt) w b w'
  bind-validated fs f w w' b e =
      let (a, w1, passed, rest) = Returns-bind (validated v fs) f w w' b e in
      subst (λ s. Returns (f tt) s b w') (validated-Returns fs w w1 a passed) rest
