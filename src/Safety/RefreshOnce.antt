-- ===== src/Safety/RefreshOnce.antt =====
-- Rotation and reuse: a refresh token works once, and a second use of it ends every session.
use rustpress_plugin_authpro.Base.{
  ℕ, suc, ◌≡◌, refl, subst, String, str_eq, Bool, true, false, ◌&&◌, Option, none, some, List,
  arith, any, ◌==◌, update_where, any-append_left, find_where-Held, Held-made, Bool-cases, inl, inr,
  find_where-none,
}
use rustpress_plugin_authpro.Text.Split.{rsplit_dot}
use rustpress_plugin_authpro.Error.{err, token_revoked}
use rustpress_plugin_authpro.Models.{Uuid, Instant, RefreshToken, is_revoked, is_valid}
use rustpress_plugin_authpro.Models.Responses.{TokenResponse}
use rustpress_plugin_authpro.Models.Claims.{RefreshTokenClaims}
use rustpress_plugin_authpro.Config.{AuthConfig}
use rustpress_plugin_authpro.Externals.{Externals}
use rustpress_plugin_authpro.Db.RefreshTokens.{
  revoked_now, is_live_of, select_refresh_token, revoke_user_tokens,
}
use rustpress_plugin_authpro.Db.Changes.{SessionsEnded, SessionsEnded-made}
use rustpress_plugin_authpro.Exec.{World, tick, ◌>>=◌}
use rustpress_plugin_authpro.Exec.Inversion.{Returns}
use rustpress_plugin_authpro.Service.Token.{hash_token, decode_refresh_token}
use rustpress_plugin_authpro.Service.Token.Issued.{refresh_validation}
use rustpress_plugin_authpro.Service.Account.{revoke_all_tokens}
use rustpress_plugin_authpro.Service.Refresh.{revoke_on_reuse, check_stored, refresh_tokens}
use rustpress_plugin_authpro.Service.Refresh.Rotation.{
  stored_token, Presented, Rotated, refresh_tokens-Returns,
}
use rustpress_plugin_authpro.Service.Calls.{Call, run}
use rustpress_plugin_authpro.Safety.Revocation.{Revoked, Moves-Revoked}
use rustpress_plugin_authpro.Service.Calls.Statements.{Moves}
use rustpress_plugin_authpro.Service.Calls.Respects.{run-Moves}

-- A token found by its id and its hash is in the table.
present :
    (id : Uuid) (hash : String) (ts : List RefreshToken) (t : RefreshToken)
    → stored_token id hash ts ≡ some t
    → any (λ t. t.id == id) ts ≡ true
present id hash ts t found = elim (Bool-cases (any (λ t. t.id == id) ts)) [
  | inl some_row ↦ some_row
  | inr no_row ↦ cc (
    find_where-none (λ t. t.id == id) (λ t. t.id == id && str_eq t.token_hash hash)
        (λ t e. ground arith) ts no_row,
    found,
  )
]

and_false : (b : Bool) → (b && false) ≡ false
and_false b = ground arith

-- A row that is valid is not revoked.
valid-not-Revoked :
    (id : Uuid) (hash : String) (ts : List RefreshToken) (t : RefreshToken) (now : Instant)
    → Revoked id ts
    → stored_token id hash ts ≡ some t
    → is_valid t now ≡ false
unfolding is_valid
valid-not-Revoked id hash ts t now held found =
    let gone : is_revoked t ≡ true =
      find_where-Held (λ t. t.id == id) is_revoked (λ t. t.id == id && str_eq t.token_hash hash)
        (λ t e. ground arith) ts t held found in
    ground arith

module _ (x : Externals) (c : AuthConfig) where
  -- What jsonwebtoken decodes is the payload of the token: it does not change from call to call.
  abbrev pub DecodesPayload : Type 0
  DecodesPayload =
      (jwt : String) (now later : Instant) (a b : RefreshTokenClaims)
      → x.decode_refresh c.jwt_secret (refresh_validation x c true) now jwt ≡ some a
      → x.decode_refresh c.jwt_secret (refresh_validation x c true) later jwt ≡ some b
      → a ≡ b

  Rotated-Revoked :
      (token : String) (ip agent : Option String) (w w' : World) (r : TokenResponse)
      (p : Presented x c token w)
      → Rotated x c p.claims ip agent (tick (tick (tick w))) r w'
      → Revoked p.claims.tid w'.db.refresh_tokens
  unfolding is_revoked
  Rotated-Revoked token ip agent w w' r p rot =
      let before : any (λ t. t.id == p.claims.tid) rot.after_refresh.db.refresh_tokens ≡ true =
        rw (rot.refresh.stored, rot.access.stays)
          (any-append_left (λ t. t.id == p.claims.tid) w.db.refresh_tokens _
            (present p.claims.tid _ w.db.refresh_tokens p.stored p.found)) in
      rw rot.rotated (
        Held-made (λ t. t.id == p.claims.tid) is_revoked (λ t. t.id == p.claims.tid)
          (revoked_now (x.db_now rot.after_refresh.step)) (λ t. refl) (λ t e. ground arith)
          rot.after_refresh.db.refresh_tokens before)

  -- Once a refresh with it has succeeded, a token is of no use to a later one, however the tables
  -- have moved in between.
  pub refresh_tokens-spent :
      DecodesPayload
      → (token : String) (ip agent : Option String) (w w' : World) (r : TokenResponse)
      → Returns (refresh_tokens x c token ip agent) w r w'
      → (v : World) → Moves x c w'.db v.db
      → (ip' agent' : Option String) (w'' : World) (r' : TokenResponse)
      → ¬ Returns (refresh_tokens x c token ip' agent') v r' w''
  refresh_tokens-spent payload token ip agent w w' r e v m ip' agent' w'' r' e' =
      let (p, rot) = refresh_tokens-Returns x c token ip agent w w' r e in
      let (q, _) = refresh_tokens-Returns x c token ip' agent' v w'' r' e' in
      let same_jwt : p.jwt ≡ q.jwt = cc (p.split, q.split) in
      let same : p.claims ≡ q.claims =
        payload p.jwt (x.utc_now w.step) (x.utc_now v.step) p.claims q.claims p.decoded
          (rw same_jwt q.decoded) in
      let held : Revoked p.claims.tid v.db.refresh_tokens =
        Moves-Revoked x c p.claims.tid w'.db v.db m (Rotated-Revoked token ip agent w w' r p rot) in
      let held' : Revoked q.claims.tid v.db.refresh_tokens =
        subst (λ k. Revoked k.tid v.db.refresh_tokens) same held in
      let stale : is_valid q.stored (x.utc_now (suc (suc v.step))) ≡ false =
        valid-not-Revoked q.claims.tid (hash_token x c q.token_string) v.db.refresh_tokens q.stored
          (x.utc_now (suc (suc v.step))) held' q.found in
      cc (stale, q.fresh)

  -- A refresh token works once, where a JWT decodes to the same claims whenever it decodes: after a
  -- refresh that succeeded with it, and any calls of the service that follow, a refresh with the
  -- same token does not succeed.
  pub refresh_once :
      DecodesPayload
      → (token : String) (ip agent : Option String) (w w' : World) (r : TokenResponse)
      → Returns (refresh_tokens x c token ip agent) w r w'
      → (calls : List Call) (ip' agent' : Option String) (w'' : World) (r' : TokenResponse)
      → ¬ Returns (refresh_tokens x c token ip' agent') (run x c calls w') r' w''
  refresh_once payload token ip agent w w' r e calls =
      refresh_tokens-spent payload token ip agent w w' r e (run x c calls w')
        (run-Moves x c calls w')

  -- Reuse of a revoked token, where no statement fails: the answer is TokenRevoked, every refresh
  -- token of the user whom the JWT names is revoked, those that were revoked before and those of
  -- everybody else stay as they were, and no other table is written.
  pub reuse_revokes_all :
      (token : String) (ip agent : Option String) (w : World) (token_string jwt : String)
      (claims : RefreshTokenClaims) (t : RefreshToken)
      → ((n : ℕ) → x.db_fault n ≡ none)
      → rsplit_dot token ≡ some (token_string, jwt)
      → x.decode_refresh c.jwt_secret (refresh_validation x c true) (x.utc_now w.step) jwt
        ≡ some claims
      → stored_token claims.tid (hash_token x c token_string) w.db.refresh_tokens ≡ some t
      → is_revoked t ≡ true
      → (w' : World) × (refresh_tokens x c token ip agent w ≡ (err token_revoked, w'))
        × SessionsEnded claims.sub (x.db_now (suc (suc (suc w.step)))) w.db w'.db
        × (w'.db ≡ record w.db { refresh_tokens = w'.db.refresh_tokens })
  unfolding refresh_tokens decode_refresh_token select_refresh_token check_stored revoke_on_reuse
      revoke_all_tokens revoke_user_tokens is_revoked is_valid ◌>>=◌
  reuse_revokes_all token ip agent w token_string jwt claims t healthy split decoded found gone = (
    record {
      db = record w.db {
        refresh_tokens =
            update_where (is_live_of claims.sub) (revoked_now (x.db_now (suc (suc (suc w.step)))))
              w.db.refresh_tokens;
      };
      step = suc (suc (suc (suc w.step)));
    },
    simp (healthy, split, decoded, found, gone, and_false),
    SessionsEnded-made claims.sub (x.db_now (suc (suc (suc w.step)))) w.db _ refl,
    refl,
  )
