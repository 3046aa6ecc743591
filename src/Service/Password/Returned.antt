-- ===== src/Service/Password/Returned.antt =====
-- `hash_password` at the head of a `do` block that returned.
use rustpress_plugin_authpro.Base.{◌≡◌, String, subst}
use rustpress_plugin_authpro.Error.{ok}
use rustpress_plugin_authpro.Config.{AuthConfig}
use rustpress_plugin_authpro.Externals.{Externals}
use rustpress_plugin_authpro.Exec.{World, Exec, tick, ◌>>=◌}
use rustpress_plugin_authpro.Exec.Inversion.{Returns, Returns-bind, Returns-lift, bind-draw}
use rustpress_plugin_authpro.Service.Password.{hash_with_salt, hash_password}

pub bind-hash_password :
    {B : Type 0} (x : Externals) (c : AuthConfig) (w w' : World) (b : B) (password : String)
    (f : String → Exec B)
    → Returns (hash_password x c password >>= f) w b w'
    → (h : String) × (hash_with_salt x c password (x.salt w.step) ≡ ok h)
      × Returns (f h) (tick w) b w'
unfolding hash_password
bind-hash_password x c w w' b password f e =
    let (h, v, made, rest) = Returns-bind (hash_password x c password) f w w' b e in
    let (hashed, last) = Returns-lift _ (tick w) v h (bind-draw w v h _ _ made) in
    (h, hashed, subst (λ s. Returns (f h) s b w') last rest)
