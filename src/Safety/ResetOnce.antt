-- ===== src/Safety/ResetOnce.antt =====
-- A password reset token works once.
use rustpress_plugin_authpro.Base.{
  ℕ, suc, ◌≡◌, refl, subst, sym, ◌∙◌, String, str_eq, eq_iff, Bool, true, false, not, ◌&&◌, some,
  List, [], ◌∷◌, arith, any, update_by, ◌==◌, ==_refl, is_some, Bool-cases, inl, inr, any-update,
  any-false, find_where-none,
}
use rustpress_plugin_authpro.Models.{Instant, OneTimeToken}
use rustpress_plugin_authpro.Models.Requests.{ResetPasswordRequest}
use rustpress_plugin_authpro.Config.{AuthConfig}
use rustpress_plugin_authpro.Externals.{Externals}
use rustpress_plugin_authpro.Db.OneTimeTokens.{password_reset, one_time_id, used_now, is_usable}
use rustpress_plugin_authpro.Exec.{World}
use rustpress_plugin_authpro.Exec.Inversion.{Returns}
use rustpress_plugin_authpro.Service.Token.{hash_token}
use rustpress_plugin_authpro.Service.Reset.{reset_password}
use rustpress_plugin_authpro.Safety.OneTime.{Spent, Moves-Spent, find-Spent}
use rustpress_plugin_authpro.Service.Calls.Statements.{Moves}
use rustpress_plugin_authpro.Service.Calls.Respects.{run-Moves}
use rustpress_plugin_authpro.Service.Calls.{Call, run}
use rustpress_plugin_authpro.Service.Reset.Done.{usable_token, reset_password-Returns}

-- The UNIQUE constraint on token_hash.
abbrev pub has_unique_hashes : List OneTimeToken → Bool
has_unique_hashes [] = true
has_unique_hashes (t ∷ ts) =
    not (any (λ s. str_eq s.token_hash t.token_hash) ts) && has_unique_hashes ts

-- Where the hash is unique, marking the row that was found marks all with that hash.
module _ (hash : String) (now later : Instant) where
  absent_left :
      (ts : List OneTimeToken) (k : ℕ)
      → any (λ s. str_eq s.token_hash hash) ts ≡ false
      → any
          (λ s. str_eq s.token_hash hash && not (is_some s.used_at))
          (update_by one_time_id k (used_now later) ts)
        ≡ false
  absent_left ts k h =
      any-false (λ s. str_eq s.token_hash hash)
        (λ s. str_eq s.token_hash hash && not (is_some s.used_at)) (λ s e. ground arith)
        (update_by one_time_id k (used_now later) ts)
        (any-update (λ s. str_eq s.token_hash hash) (λ s. is_some s.used_at) (λ s. s.id == k)
            (used_now later) (λ s. refl) ts
          ∙ h)

  others_absent :
      (s : OneTimeToken) (ts : List OneTimeToken)
      → str_eq s.token_hash hash ≡ true
      → has_unique_hashes (s ∷ ts) ≡ true
      → any (λ s. str_eq s.token_hash hash) ts ≡ false
  others_absent s ts same unique =
      let e : s.token_hash ≡ hash = (eq_iff s.token_hash hash).0 same in rw (← e) (ground arith)

  present :
      (ts : List OneTimeToken) (t : OneTimeToken)
      → usable_token hash now ts ≡ some t
      → any (λ s. str_eq s.token_hash hash) ts ≡ true
  present ts t found = elim (Bool-cases (any (λ s. str_eq s.token_hash hash) ts)) [
    | inl some_row ↦ some_row
    | inr no_row ↦ cc (
      find_where-none (λ s. str_eq s.token_hash hash)
          (λ s. str_eq s.token_hash hash && is_usable now s) (λ s e. ground arith) ts no_row,
      found,
    )
  ]

  none_left :
      (ts : List OneTimeToken) (t : OneTimeToken)
      → has_unique_hashes ts ≡ true
      → usable_token hash now ts ≡ some t
      → any
          (λ s. str_eq s.token_hash hash && not (is_some s.used_at))
          (update_by one_time_id t.id (used_now later) ts)
        ≡ false
  none_left [] t unique found = refl
  none_left (s ∷ ts) t unique found = elim (Bool-cases (str_eq s.token_hash hash)) [
    | inl same ↦ elim (Bool-cases (is_usable now s)) [
      | inl usable ↦
          ground (arith, absent_left ts s.id (others_absent s ts same unique), ==_refl s.id)
      | inr spent ↦ cc (present ts t (ground arith), others_absent s ts same unique)
    ]
    | inr other ↦ ground (arith, none_left ts t (ground arith) (ground arith))
  ]

  Spent-used :
      (ts : List OneTimeToken) (t : OneTimeToken)
      → has_unique_hashes ts ≡ true
      → usable_token hash now ts ≡ some t
      → Spent hash (update_by one_time_id t.id (used_now later) ts)
  Spent-used ts t unique found = (
    any-update (λ s. str_eq s.token_hash hash) (λ s. is_some s.used_at) (λ s. s.id == t.id)
          (used_now later) (λ s. refl) ts
        ∙ present ts t found,
    none_left ts t unique found,
  )

module _ (x : Externals) (c : AuthConfig) where
  -- Once a reset with it has succeeded, a token is of no use to a later one, however the tables have
  -- moved in between.
  pub reset_password-spent :
      (req : ResetPasswordRequest) (w w' : World)
      → has_unique_hashes w.db.password_reset_tokens ≡ true
      → Returns (reset_password x c req) w tt w'
      → (v : World) → Moves x c w'.db v.db
      → (again : ResetPasswordRequest) (w'' : World) → again.token ≡ req.token
      → ¬ Returns (reset_password x c again) v tt w''
  reset_password-spent req w w' unique e v m again w'' same e' =
      let r = reset_password-Returns x c req w w' e in
      let r' = reset_password-Returns x c again v w'' e' in
      let spent =
        Spent-used (hash_token x c req.token) (x.db_now w.step) (x.db_now (suc (suc (suc w.step))))
          w.db.password_reset_tokens r.token unique r.found in
      let kept =
        Moves-Spent x c password_reset (hash_token x c req.token) w'.db v.db m
          (subst (Spent (hash_token x c req.token)) (sym r.tokens) spent) in
      let found : usable_token (hash_token x c req.token) (x.db_now v.step)
            v.db.password_reset_tokens
          ≡ some r'.token =
        rw (← same) r'.found in
      cc (
        find-Spent (hash_token x c req.token) (x.db_now v.step) v.db.password_reset_tokens kept,
        found,
      )

  -- A reset token works once, where the table keeps its UNIQUE constraint on the hash: after a
  -- successful reset, and any calls of the service after it, a reset with the same token does not
  -- succeed, whatever password it brings.
  pub reset_once :
      (req : ResetPasswordRequest) (w w' : World)
      → has_unique_hashes w.db.password_reset_tokens ≡ true
      → Returns (reset_password x c req) w tt w'
      → (calls : List Call) (again : ResetPasswordRequest) (w'' : World) → again.token ≡ req.token
      → ¬ Returns (reset_password x c again) (run x c calls w') tt w''
  reset_once req w w' unique e calls =
      reset_password-spent req w w' unique e (run x c calls w') (run-Moves x c calls w')
