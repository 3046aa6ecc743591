-- ===== src/Service/Calls/Histories.antt =====
-- Histories: any statements of service.rs that write, one after another, at any times and with any
-- values. Those of several requests that run at once are one history, however they interleave, since
-- a method's statements are no transaction.
use rustpress_plugin_authpro.Base.{◌≡◌, refl, ap, ◌∙◌, String, Option, List, [], ◌∷◌, ◌++◌}
use rustpress_plugin_authpro.Models.{Uuid, Instant}
use rustpress_plugin_authpro.Config.{AuthConfig}
use rustpress_plugin_authpro.Externals.{Externals}
use rustpress_plugin_authpro.Db.{Db, Sql, done, fail}
use rustpress_plugin_authpro.Service.Password.Stored.{OfStrong}
use rustpress_plugin_authpro.Db.Users.{
  insert_user, record_failure, record_success, set_password, set_email_verified,
}
use rustpress_plugin_authpro.Db.RefreshTokens.{
  insert_refresh_token, revoke_token, revoke_user_tokens,
}
use rustpress_plugin_authpro.Db.OneTimeTokens.{Purpose, supersede_tokens, insert_token, use_token}
use rustpress_plugin_authpro.Exec.{World}
use rustpress_plugin_authpro.Exec.Respects.{Keeps}
use rustpress_plugin_authpro.Service.Calls.{Call, run}
use rustpress_plugin_authpro.Service.Calls.Statements.{StatementsKeep, Moves}
use rustpress_plugin_authpro.Service.Calls.Respects.{run-Moves}

-- A statement that fails leaves the tables.
abbrev tables_after : {A : Type 0} → Db → Sql A → Db
tables_after d (done a d') = d'
tables_after d (fail message) = d

module _ (x : Externals) (c : AuthConfig) where
  -- The hashes that are written are made by `hash_password`, of a password that was accepted.
  pub data Write : Type 0 where
    inserts_user : (id : Uuid) (email hash name : String) → OfStrong x c hash → Write
    records_failure : Uuid → Write
    records_success : Uuid → Option String → Write
    sets_password : (id : Uuid) (hash : String) → OfStrong x c hash → Write
    sets_email_verified : Uuid → Write
    inserts_refresh_token : Uuid → Uuid → String → Instant → Option String → Option String → Write
    revokes_token revokes_user_tokens : Uuid → Write
    supersedes_tokens : Purpose → Uuid → Write
    inserts_token : Purpose → Uuid → Uuid → String → Instant → Write
    uses_token : Purpose → Uuid → Write

  unfoldable pub execute_write : Instant → Write → Db → Db
  execute_write now (inserts_user id email hash name _) d =
      tables_after d (insert_user id email hash name now d)
  execute_write now (records_failure id) d = tables_after d (
      record_failure id c.max_login_attempts (λ now. x.db_add_seconds now c.lockout_duration) now d)
  execute_write now (records_success id ip) d = tables_after d (record_success id ip now d)
  execute_write now (sets_password id hash _) d = tables_after d (set_password id hash now d)
  execute_write now (sets_email_verified id) d = tables_after d (set_email_verified id now d)
  execute_write now (inserts_refresh_token id user_id hash expires ip agent) d =
      tables_after d (insert_refresh_token id user_id hash expires ip agent now d)
  execute_write now (revokes_token id) d = tables_after d (revoke_token id now d)
  execute_write now (revokes_user_tokens id) d = tables_after d (revoke_user_tokens id now d)
  execute_write now (supersedes_tokens p user_id) d =
      tables_after d (supersede_tokens p user_id now d)
  execute_write now (inserts_token p id user_id hash expires) d =
      tables_after d (insert_token p id user_id hash expires now d)
  execute_write now (uses_token p id) d = tables_after d (use_token p id now d)

  abbrev pub History : Type 0
  History = List (Instant × Write)

  unfoldable pub execute_all : History → Db → Db
  execute_all [] d = d
  execute_all ((now, w) ∷ rest) d = execute_all rest (execute_write now w d)

  module _ (R : Db → Db → Type 0) (k : StatementsKeep R x c) where
    kept :
        {A : Type 0} (s : Instant → Db → Sql A)
        → Keeps R s
        → (now : Instant) (d : Db) → R d (tables_after d (s now d))
    kept s keeps now d = answered (s now d) (keeps now d)
      where
        answered :
            {A : Type 0} (r : Sql A)
            → ((d' : Db) (a : A) → r ≡ done a d' → R d d')
            → R d (tables_after d r)
        answered (done a d') h = h d' a refl
        answered (fail m) h = k.preorder.same d

    write-keeps : (now : Instant) (w : Write) (d : Db) → R d (execute_write now w d)
    unfolding execute_write
    write-keeps now (inserts_user id email hash name strong) d =
        kept _ (k.inserts_user id email hash name strong) now d
    write-keeps now (records_failure id) d = kept _ (k.records_failure id) now d
    write-keeps now (records_success id ip) d = kept _ (k.records_success id ip) now d
    write-keeps now (sets_password id hash strong) d = kept _ (k.sets_password id hash strong) now d
    write-keeps now (sets_email_verified id) d = kept _ (k.sets_email_verified id) now d
    write-keeps now (inserts_refresh_token id user_id hash expires ip agent) d =
        kept _ (k.inserts_refresh id user_id hash expires ip agent) now d
    write-keeps now (revokes_token id) d = kept _ (k.revokes id) now d
    write-keeps now (revokes_user_tokens id) d = kept _ (k.revokes_user id) now d
    write-keeps now (supersedes_tokens p user_id) d = kept _ (k.supersedes p user_id) now d
    write-keeps now (inserts_token p id user_id hash expires) d =
        kept _ (k.inserts_token p id user_id hash expires) now d
    write-keeps now (uses_token p id) d = kept _ (k.uses_token p id) now d

    all-keep : (h : History) (d : Db) → R d (execute_all h d)
    unfolding execute_all
    all-keep [] d = k.preorder.same d
    all-keep ((now, w) ∷ rest) d =
        k.preorder.next d (execute_write now w d) _ (write-keeps now w d)
          (all-keep rest (execute_write now w d))

  -- Whatever the statements of the code keep, every history keeps.
  pub execute_all-Moves : (h : History) (d : Db) → Moves x c d (execute_all h d)
  execute_all-Moves h d R k = all-keep R k h d

  abbrev IsHistory : Db → Db → Type 0
  IsHistory d d' = (h : History) × (execute_all h d ≡ d')

  execute_all-append :
      (g h : History) (d : Db) → execute_all (g ++ h) d ≡ execute_all h (execute_all g d)
  unfolding execute_all
  execute_all-append [] h d = refl
  execute_all-append ((now, w) ∷ g) h d = execute_all-append g h (execute_write now w d)

  histories : StatementsKeep IsHistory x c
  unfolding execute_all execute_write
  histories = record {
    preorder = record {
      same = λ d. ([], refl);
      next = λ a b e (g, p) (h, q). (g ++ h, execute_all-append g h a ∙ ap (execute_all h) p ∙ q);
    };
    inserts_user = λ id email hash name strong now d d' a e.
        ((now, inserts_user id email hash name strong) ∷ [], ap (tables_after d) e);
    records_failure = λ id now d d' a e. ((now, records_failure id) ∷ [], ap (tables_after d) e);
    records_success =
        λ id ip now d d' a e. ((now, records_success id ip) ∷ [], ap (tables_after d) e);
    sets_password = λ id hash strong now d d' a e.
        ((now, sets_password id hash strong) ∷ [], ap (tables_after d) e);
    sets_email_verified =
        λ id now d d' a e. ((now, sets_email_verified id) ∷ [], ap (tables_after d) e);
    inserts_refresh = λ id user_id hash expires ip agent now d d' a e.
        ((now, inserts_refresh_token id user_id hash expires ip agent) ∷ [], ap (tables_after d) e);
    revokes = λ id now d d' a e. ((now, revokes_token id) ∷ [], ap (tables_after d) e);
    revokes_user = λ id now d d' a e. ((now, revokes_user_tokens id) ∷ [], ap (tables_after d) e);
    supersedes =
        λ p user_id now d d' a e. ((now, supersedes_tokens p user_id) ∷ [], ap (tables_after d) e);
    inserts_token = λ p id user_id hash expires now d d' a e.
        ((now, inserts_token p id user_id hash expires) ∷ [], ap (tables_after d) e);
    uses_token = λ p id now d d' a e. ((now, uses_token p id) ∷ [], ap (tables_after d) e);
  }

  -- What calls do to the tables, one after another, is a history.
  run-executes :
      (calls : List Call) (w : World) → (h : History) × (execute_all h w.db ≡ (run x c calls w).db)
  run-executes calls w = run-Moves x c calls w IsHistory histories
