-- ===== src/Safety/Revocation.antt =====
-- Revocation (the table `refresh_tokens`): no call takes it back.
use rustpress_plugin_authpro.Base.{
  ◌≡◌, refl, ap, true, false, List, arith, any, ◌==◌, Bool-cases, inl, inr, Held, Held-update,
  Held-append,
}
use rustpress_plugin_authpro.Models.{Uuid, RefreshToken, is_revoked}
use rustpress_plugin_authpro.Db.RefreshTokens.{new_token, revoked_now, is_live_of}
use rustpress_plugin_authpro.Config.{AuthConfig}
use rustpress_plugin_authpro.Db.{Db}
use rustpress_plugin_authpro.Externals.{Externals}
use rustpress_plugin_authpro.Exec.{World}
use rustpress_plugin_authpro.Service.Calls.{Call, run}
use rustpress_plugin_authpro.Service.Calls.Statements.{Moves}
use rustpress_plugin_authpro.Service.Calls.Respects.{run-Moves}
use rustpress_plugin_authpro.Service.Calls.TokenTables.{RefreshKeep, refresh-StatementsKeep}

-- The token is in the table, and revoked.
abbrev pub Revoked : Uuid → List RefreshToken → Type 0
Revoked id ts = Held (λ t. t.id == id) is_revoked ts

new_id :
    (id new : Uuid) (ts : List RefreshToken)
    → any (λ t. t.id == new) ts ≡ false
    → any (λ t. t.id == id) ts ≡ true
    → (new == id) ≡ false
new_id id new ts absent present = elim (Bool-cases (new == id)) [
  | inl hit ↦ let same : new ≡ id = ground arith in cc (ap (λ i. any (λ t. t.id == i) ts) same)
  | inr miss ↦ miss
]

revocation-keep : (id : Uuid) → RefreshKeep (λ ts ts'. Revoked id ts → Revoked id ts')
unfolding is_revoked
revocation-keep id = record {
  same = λ ts h. h;
  next = λ ts us vs h k r. k (h r);
  inserts = λ ts new user hash expires ip agent now absent _ h.
      Held-append (λ t. t.id == id) is_revoked ts (new_token new user hash expires ip agent now)
        (new_id id new ts absent h.0) h;
  revokes = λ ts other now.
      Held-update (λ t. t.id == id) is_revoked (λ t. t.id == other) (revoked_now now) (λ t. refl)
        (λ t _. refl) ts;
  revokes_user = λ ts user now.
      Held-update (λ t. t.id == id) is_revoked (is_live_of user) (revoked_now now) (λ t. refl)
        (λ t _. refl) ts;
}

pub Moves-Revoked :
    (x : Externals) (c : AuthConfig) (id : Uuid) (d d' : Db)
    → Moves x c d d'
    → Revoked id d.refresh_tokens
    → Revoked id d'.refresh_tokens
Moves-Revoked x c id d d' m = m _ (refresh-StatementsKeep _ x c (revocation-keep id))

module _ (x : Externals) (c : AuthConfig) where
  -- A refresh token that is revoked stays revoked, whatever calls of the service follow.
  pub Revoked-forever :
      (calls : List Call) (w : World) (id : Uuid)
      → Revoked id w.db.refresh_tokens
      → Revoked id (run x c calls w).db.refresh_tokens
  Revoked-forever calls w id =
      Moves-Revoked x c id w.db (run x c calls w).db (run-Moves x c calls w)
