-- ===== src/Safety/Sessions/Rows.antt =====
-- The table `refresh_tokens` as such a store.
use mathlib.Core.Option
use rustpress_plugin_authpro.Base.{
  ◌≡◌, refl, Bool, true, false, Option, none, some, List, [], ◌∷◌, arith, any, ◌==◌, ==_refl,
  is_some, if◌then◌else◌, find_by, find-update_by, find-update_where, find_by-append,
  find_where-none, Bool-cases, inl, inr,
}
use rustpress_plugin_authpro.Models.{Uuid, Instant, RefreshToken}
use rustpress_plugin_authpro.Config.{AuthConfig}
use rustpress_plugin_authpro.Db.{Db}
use rustpress_plugin_authpro.Externals.{Externals}
use rustpress_plugin_authpro.Db.RefreshTokens.{token_id, new_token, revoked_now, is_live_of}
use rustpress_plugin_authpro.Exec.{World}
use rustpress_plugin_authpro.Service.Calls.{Call, run}
use rustpress_plugin_authpro.Service.Calls.Statements.{Moves}
use rustpress_plugin_authpro.Service.Calls.Respects.{run-Moves}
use rustpress_plugin_authpro.Service.Calls.TokenTables.{RefreshKeep, refresh-StatementsKeep}
use rustpress_plugin_authpro.Safety.Sessions.{
  Session, absent, live, ended, Store, end, end_of, opens, ends, ends_all, Steps, stay, later,
  Steps-trans, Becomes, Becomes-Steps,
}

-- What the rows say of an identifier.
abbrev session : Option RefreshToken → Session
session none = absent
session (some t) = if is_some t.revoked_at then ended t.user_id else live t.user_id

abbrev pub sessions : List RefreshToken → Store
sessions ts id = session (find_by token_id id ts)

session-revoked :
    (now : Instant) (o : Option RefreshToken)
    → session (Option.map (revoked_now now) o) ≡ end (session o)
session-revoked now none = refl
session-revoked now (some t) = ground arith

session-ended :
    (b : Bool) (now : Instant) (o : Option RefreshToken)
    → session (if b then Option.map (revoked_now now) o else o)
      ≡ (if b then end (session o) else session o)
session-ended true now o = session-revoked now o
session-ended false now o = refl

session-revoked_of :
    (user : Uuid) (now : Instant) (o : Option RefreshToken)
    → session (Option.map (λ t. if is_live_of user t then revoked_now now t else t) o)
      ≡ end_of user (session o)
session-revoked_of user now none = refl
session-revoked_of user now (some t) = ground arith

session-opened :
    (o : Option RefreshToken) (t : RefreshToken) (j : Uuid)
    → ((t.id == j) ≡ true → o ≡ none)
    → is_some t.revoked_at ≡ false
    → session (elim o [ none ↦ find_by token_id j (t ∷ []) | some a ↦ some a ])
      ≡ (if t.id == j then live t.user_id else session o)
session-opened none t j free fresh = ground arith
session-opened (some a) t j free fresh = elim (Bool-cases (t.id == j)) [
  | inl hit ↦ let taken : some a ≡ none = free hit in cc
  | inr miss ↦ ground arith
]

-- A search for an identifier that no row has.
not_found :
    (id j : Uuid) (ts : List RefreshToken)
    → any (λ t. t.id == id) ts ≡ false
    → (id == j) ≡ true
    → find_by token_id j ts ≡ none
not_found id j ts new same =
    let e : id ≡ j = ground arith in
    rw (← e) (find_where-none (λ t. t.id == id) (λ t. t.id == id) (λ t h. h) ts new)

sessions-keep : RefreshKeep (λ ts us. Steps (sessions ts) (sessions us))
sessions-keep = record {
  same = λ ts. stay;
  next = λ ts us vs p q. Steps-trans p q;
  inserts = λ ts id user hash expires ip agent now id_new hash_new. later stay (
      opens id user (rw (not_found id id ts id_new (==_refl id)) refl) (λ j.
        rw (find_by-append token_id j ts (new_token id user hash expires ip agent now ∷ [])) (
          session-opened (find_by token_id j ts) (new_token id user hash expires ip agent now) j
            (not_found id j ts id_new) refl)));
  revokes = λ ts id now. later stay (
      ends id (λ j.
        rw (find-update_by token_id j id (revoked_now now) (λ t. refl) ts)
          (session-ended (id == j) now (find_by token_id j ts))));
  revokes_user = λ ts user now. later stay (
      ends_all user (λ j.
        rw (find-update_where token_id j (is_live_of user) (revoked_now now) (λ t. refl) ts)
          (session-revoked_of user now (find_by token_id j ts))));
}

pub Moves-Steps :
    (x : Externals) (c : AuthConfig) (d d' : Db)
    → Moves x c d d'
    → Steps (sessions d.refresh_tokens) (sessions d'.refresh_tokens)
Moves-Steps x c d d' m = m _ (refresh-StatementsKeep _ x c sessions-keep)

module _ (x : Externals) (c : AuthConfig) where
  -- The refresh tokens implement an abstract store of sessions: whatever calls of the service are
  -- made, and whatever they answer, the store moves by openings under free identifiers, endings of
  -- one session, and endings of all of a user's, and by nothing else.
  pub run-Steps :
      (calls : List Call) (w : World)
      → Steps (sessions w.db.refresh_tokens) (sessions (run x c calls w).db.refresh_tokens)
  run-Steps calls w = Moves-Steps x c w.db (run x c calls w).db (run-Moves x c calls w)

  -- A session stays its user's and never comes back: whatever calls of the service are made, a token
  -- that is live stays live or is revoked, one that is revoked stays so, and neither changes hands
  -- or leaves the table.
  pub run-Becomes :
      (calls : List Call) (w : World) (id : Uuid)
      → Becomes (sessions w.db.refresh_tokens id) (sessions (run x c calls w).db.refresh_tokens id)
  run-Becomes calls w id = Becomes-Steps (run-Steps calls w) id
