-- ===== src/Service/Account/Returned.antt =====
-- `find_user` at the head of a `do` block that returned.
use rustpress_plugin_authpro.Base.{◌≡◌, some, find_by, subst}
use rustpress_plugin_authpro.Models.{Uuid, User}
use rustpress_plugin_authpro.Externals.{Externals}
use rustpress_plugin_authpro.Db.Users.{user_id, select_user}
use rustpress_plugin_authpro.Exec.{World, Exec, tick, ◌>>=◌}
use rustpress_plugin_authpro.Exec.Inversion.{Returns, Returns-bind, Returns-lift, bind-select}
use rustpress_plugin_authpro.Service.Token.Issued.{ok_or-ok}
use rustpress_plugin_authpro.Service.Account.{find_user}

pub bind-find_user :
    {B : Type 0} (x : Externals) (w w' : World) (b : B) (id : Uuid) (f : User → Exec B)
    → Returns (find_user x id >>= f) w b w'
    → (u : User) × (find_by user_id id w.db.users ≡ some u) × Returns (f u) (tick w) b w'
unfolding find_user select_user
bind-find_user x w w' b id f e =
    let (u, v, looked, rest) = Returns-bind (find_user x id) f w w' b e in
    let (known, last) =
      Returns-lift _ (tick w) v u
        (bind-select w v u x (λ _ d. find_by user_id id d.users) _ looked) in
    (u, ok_or-ok _ _ u known, subst (λ s. Returns (f u) s b w') last rest)
