-- ===== src/Service/Reset/Sent.antt =====
-- A one-time token that was just stored, after the older ones of its user were marked used.
use rustpress_plugin_authpro.Base.{
  ◌≡◌, refl, ◌∙◌, String, str_eq, eq_refl, true, false, ◌&&◌, some, List, [], ◌∷◌, ◌++◌, ◌==◌, any,
  any-update, is_some, find_where-none, find_where-last, update_where, ltb, arith,
}
use rustpress_plugin_authpro.Models.{Uuid, Instant, OneTimeToken}
use rustpress_plugin_authpro.Db.OneTimeTokens.{is_unused_of, used_now, new_one_time, is_usable}
use rustpress_plugin_authpro.Service.Reset.Done.{usable_token}

module _ (user : Uuid) (used : Instant) (ts : List OneTimeToken) where
  abbrev pub superseded : List OneTimeToken
  superseded = update_where (is_unused_of user) (used_now used) ts

  pub superseded-new_id :
      (id : Uuid) → any (λ t. t.id == id) ts ≡ false → any (λ t. t.id == id) superseded ≡ false
  superseded-new_id id new =
      any-update (λ t. t.id == id) (λ t. is_some t.used_at) (is_unused_of user) (used_now used)
        (λ t. refl) ts
      ∙ new

  pub superseded-new_hash :
      (hash : String)
      → any (λ t. str_eq t.token_hash hash) ts ≡ false
      → any (λ t. str_eq t.token_hash hash) superseded ≡ false
  superseded-new_hash hash new =
      any-update (λ t. str_eq t.token_hash hash) (λ t. is_some t.used_at) (is_unused_of user)
        (used_now used) (λ t. refl) ts
      ∙ new

  -- The SELECT finds the new token until it expires.
  pub superseded-usable :
      (id : Uuid) (hash : String) (exp created now : Instant)
      → any (λ t. str_eq t.token_hash hash) ts ≡ false
      → ltb now exp ≡ true
      → usable_token hash now (superseded ++ new_one_time id user hash exp created ∷ [])
        ≡ some (new_one_time id user hash exp created)
  unfolding is_usable
  superseded-usable id hash exp created now new in_time =
      find_where-last _ superseded _
        (find_where-none (λ t. str_eq t.token_hash hash)
          (λ t. str_eq t.token_hash hash && is_usable now t) (λ t e. ground arith) superseded
          (superseded-new_hash hash new))
        (rw (eq_refl hash, in_time))
