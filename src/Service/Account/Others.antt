-- ===== src/Service/Account/Others.antt =====
-- `change_password` and the accounts of others.
use rustpress_plugin_authpro.Base.{
  ℕ, ◌≡◌, refl, sym, subst, ◌∙◌, String, false, List, [], ◌∷◌, ◌==◌, arith, find_by, find-update_by,
  update_where, if◌then◌else◌,
}
use rustpress_plugin_authpro.Models.{Uuid, RefreshToken}
use rustpress_plugin_authpro.Models.Requests.{ChangePasswordRequest}
use rustpress_plugin_authpro.Config.{AuthConfig}
use rustpress_plugin_authpro.Externals.{Externals}
use rustpress_plugin_authpro.Db.{Db}
use rustpress_plugin_authpro.Db.Users.{user_id, with_password, select_user, set_password}
use rustpress_plugin_authpro.Db.RefreshTokens.{is_live_of, revoked_now, revoke_user_tokens}
use rustpress_plugin_authpro.Db.Effects.{set_password-done, revoke_user_tokens-done}
use rustpress_plugin_authpro.Exec.{World}
use rustpress_plugin_authpro.Exec.Respects.{IsPreorder, Respects, Keeps, respects_rules}
use rustpress_plugin_authpro.Service.Password.{hash_password}
use rustpress_plugin_authpro.Service.Account.{find_user, revoke_all_tokens, change_password}

-- The refresh tokens of everybody else, in their order.
abbrev pub tokens_of_others : Uuid → List RefreshToken → List RefreshToken
tokens_of_others id [] = []
tokens_of_others id (t ∷ ts) =
    let rest = tokens_of_others id ts in if t.user_id == id then rest else t ∷ rest

-- Every other user's row and refresh tokens, and both tables of one-time tokens, are as they were.
pub record OthersKept (id : Uuid) (d d' : Db) : Type 0 where
  pub users :
      (k : Uuid) → (id == k) ≡ false → find_by user_id k d'.users ≡ find_by user_id k d.users
  pub sessions : tokens_of_others id d'.refresh_tokens ≡ tokens_of_others id d.refresh_tokens
  pub resets : d'.password_reset_tokens ≡ d.password_reset_tokens
  pub verifications : d'.email_verification_tokens ≡ d.email_verification_tokens

pub others-IsPreorder : (id : Uuid) → IsPreorder (OthersKept id)
others-IsPreorder id = record {
  same = λ d. record { users = λ k e. refl; sessions = refl; resets = refl; verifications = refl };
  next = λ a b c h k. record {
    users = λ u e. k.users u e ∙ h.users u e;
    sessions = k.sessions ∙ h.sessions;
    resets = k.resets ∙ h.resets;
    verifications = k.verifications ∙ h.verifications;
  };
}

select_user-OthersKept : (id k : Uuid) → Keeps (OthersKept id) (select_user k)
unfolding select_user
select_user-OthersKept id k now d d' a e =
    let same : d' ≡ d = cc e in subst (OthersKept id d) (sym same) ((others-IsPreorder id).same d)

set_password-OthersKept : (id : Uuid) (hash : String) → Keeps (OthersKept id) (set_password id hash)
set_password-OthersKept id hash now d d' a e =
    let moved = set_password-done now d d' id hash a e in
    subst (OthersKept id d) (sym moved) (record {
      users = λ k other.
          rw (find-update_by user_id k id (with_password hash now) (λ u. refl) d.users, other);
      sessions = refl;
      resets = refl;
      verifications = refl;
    })

others-revoke :
    (id : Uuid) (now : ℕ) (ts : List RefreshToken)
    → tokens_of_others id (update_where (is_live_of id) (revoked_now now) ts)
      ≡ tokens_of_others id ts
others-revoke id now [] = refl
others-revoke id now (t ∷ ts) = ground (arith, others-revoke id now ts)

revoke-OthersKept : (id : Uuid) → Keeps (OthersKept id) (revoke_user_tokens id)
revoke-OthersKept id now d d' a e =
    let moved = revoke_user_tokens-done now d d' id a e in
    subst (OthersKept id d) (sym moved) (record {
      users = λ k other. refl;
      sessions = others-revoke id now d.refresh_tokens;
      resets = refl;
      verifications = refl;
    })

module _ (x : Externals) (c : AuthConfig) where
  -- Whatever comes of a change of a password, an error in the middle included, it touches no other
  -- user's row and no other user's refresh tokens.
  pub change_password-OthersKept :
      (id : Uuid) (req : ChangePasswordRequest) (w : World)
      → OthersKept id w.db (change_password x c id req w).1.db
  unfolding change_password find_user hash_password revoke_all_tokens
  change_password-OthersKept id req w =
      let keeps : Respects (OthersKept id) (change_password x c id req) =
        search
          (
            respects_rules, others-IsPreorder, select_user-OthersKept, set_password-OthersKept,
            revoke-OthersKept,
          )
          depth 12 in
      keeps.at w
