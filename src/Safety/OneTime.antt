-- ===== src/Safety/OneTime.antt =====
-- One-time tokens (`password_reset_tokens`, `email_verification_tokens`): a used one stays used.
use rustpress_plugin_authpro.Base.{
  ◌≡◌, refl, ap, String, str_eq, true, false, not, ◌&&◌, none, List, arith, any, ◌==◌, eq_iff,
  is_some, find_where, Bool-cases, inl, inr, Held, Held-update, Held-append, find_where-none,
}
use rustpress_plugin_authpro.Models.{Instant, OneTimeToken}
use rustpress_plugin_authpro.Db.OneTimeTokens.{
  Purpose, tokens, new_one_time, used_now, is_unused_of, is_usable,
}
use rustpress_plugin_authpro.Config.{AuthConfig}
use rustpress_plugin_authpro.Db.{Db}
use rustpress_plugin_authpro.Externals.{Externals}
use rustpress_plugin_authpro.Exec.{World}
use rustpress_plugin_authpro.Service.Calls.{Call, run}
use rustpress_plugin_authpro.Service.Calls.Statements.{Moves}
use rustpress_plugin_authpro.Service.Calls.Respects.{run-Moves}
use rustpress_plugin_authpro.Service.Calls.TokenTables.{OneTimeKeep, one_time-StatementsKeep}

-- A token with this hash is in the table, and every such row is used.
abbrev pub Spent : String → List OneTimeToken → Type 0
Spent hash ts = Held (λ t. str_eq t.token_hash hash) (λ t. is_some t.used_at) ts

new_hash :
    (hash new : String) (ts : List OneTimeToken)
    → any (λ t. str_eq t.token_hash new) ts ≡ false
    → any (λ t. str_eq t.token_hash hash) ts ≡ true
    → str_eq new hash ≡ false
new_hash hash new ts absent present = elim (Bool-cases (str_eq new hash)) [
  | inl hit ↦
      let same : new ≡ hash = (eq_iff new hash).0 hit in
      cc (ap (λ i. any (λ t. str_eq t.token_hash i) ts) same)
  | inr miss ↦ miss
]

Spent-keep : (hash : String) → OneTimeKeep (λ ts ts'. Spent hash ts → Spent hash ts')
Spent-keep hash = record {
  same = λ ts h. h;
  next = λ ts us vs h k r. k (h r);
  supersedes = λ ts user now.
      Held-update (λ t. str_eq t.token_hash hash) (λ t. is_some t.used_at) (is_unused_of user)
        (used_now now) (λ t. refl) (λ t _. refl) ts;
  inserts = λ ts id user new expires now _ absent h.
      Held-append (λ t. str_eq t.token_hash hash) (λ t. is_some t.used_at) ts
        (new_one_time id user new expires now) (new_hash hash new ts absent h.0) h;
  uses = λ ts id now.
      Held-update (λ t. str_eq t.token_hash hash) (λ t. is_some t.used_at) (λ t. t.id == id)
        (used_now now) (λ t. refl) (λ t _. refl) ts;
}

pub Moves-Spent :
    (x : Externals) (c : AuthConfig) (p : Purpose) (hash : String) (d d' : Db)
    → Moves x c d d'
    → Spent hash (tokens p d)
    → Spent hash (tokens p d')
Moves-Spent x c p hash d d' m = m _ (one_time-StatementsKeep _ p x c (Spent-keep hash))

module _ (x : Externals) (c : AuthConfig) where
  -- A reset or verification token that is used, or superseded, stays so, whatever calls follow.
  pub Spent-forever :
      (p : Purpose) (hash : String) (calls : List Call) (w : World)
      → Spent hash (tokens p w.db)
      → Spent hash (tokens p (run x c calls w).db)
  Spent-forever p hash calls w =
      Moves-Spent x c p hash w.db (run x c calls w).db (run-Moves x c calls w)

-- A spent token is not found by the SELECT that looks for usable ones.
pub find-Spent :
    (hash : String) (now : Instant) (ts : List OneTimeToken)
    → Spent hash ts
    → find_where (λ t. str_eq t.token_hash hash && is_usable now t) ts ≡ none
unfolding is_usable
find-Spent hash now ts h =
    find_where-none (λ t. str_eq t.token_hash hash && not (is_some t.used_at))
      (λ t. str_eq t.token_hash hash && is_usable now t) (λ t e. ground arith) ts h.1
