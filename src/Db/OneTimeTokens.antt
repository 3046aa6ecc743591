-- ===== src/Db/OneTimeTokens.antt =====
-- The statements of service.rs on `password_reset_tokens` and `email_verification_tokens`. The two
-- tables have the same columns and the code's statements on them differ by the table's name alone,
-- which is the `Purpose` here.
use rustpress_plugin_authpro.Base.{
  String, str_eq, Bool, not, ◌&&◌, Option, none, some, List, [], ◌∷◌, ◌++◌, find_where, any,
  update_by, update_where, ltb, ◌==◌, is_some,
}
use rustpress_plugin_authpro.Models.{Uuid, Instant, OneTimeToken}
use rustpress_plugin_authpro.Db.{Db, Sql, done, require, fits}

pub data Purpose : Type 0 where
  password_reset email_verification : Purpose

abbrev pub tokens : Purpose → Db → List OneTimeToken
tokens password_reset db = db.password_reset_tokens
tokens email_verification db = db.email_verification_tokens

abbrev pub with_tokens : Purpose → List OneTimeToken → Db → Db
with_tokens password_reset ts db = record db { password_reset_tokens = ts }
with_tokens email_verification ts db = record db { email_verification_tokens = ts }

abbrev pub one_time_id : OneTimeToken → Uuid
one_time_id t = t.id

abbrev pub used_now : Instant → OneTimeToken → OneTimeToken
used_now now t = record t { used_at = some now }

-- user_id = $1 AND used_at IS NULL
abbrev pub is_unused_of : Uuid → OneTimeToken → Bool
is_unused_of user_id t = t.user_id == user_id && not (is_some t.used_at)

-- UPDATE … SET used_at = NOW() WHERE user_id = $1 AND used_at IS NULL
unfoldable pub supersede_tokens : Purpose → Uuid → Instant → Db → Sql (Unit {0})
supersede_tokens p user_id now db =
    done tt (with_tokens p (update_where (is_unused_of user_id) (used_now now) (tokens p db)) db)

-- The row that the column defaults complete.
abbrev pub new_one_time : Uuid → Uuid → String → Instant → Instant → OneTimeToken
new_one_time id user_id token_hash expires_at now = record {
  id = id;
  user_id = user_id;
  token_hash = token_hash;
  expires_at = expires_at;
  used_at = none;
  created_at = now;
}

-- INSERT INTO … (user_id, token_hash, expires_at) VALUES ($1, $2, $3)
unfoldable pub insert_token :
    Purpose → Uuid → Uuid → String → Instant → Instant → Db → Sql (Unit {0})
insert_token p id user_id token_hash expires_at now db =
    require (fits 255 token_hash) "value too long" (
      require (not (any (λ t. t.id == id) (tokens p db))) "duplicate key value" (
        require (not (any (λ t. str_eq t.token_hash token_hash) (tokens p db)))
          "duplicate key value"
          (require (any (λ u. u.id == user_id) db.users) "violates foreign key constraint"
            (done tt (with_tokens p (tokens p db ++ created ∷ []) db)))))
  where
    created : OneTimeToken
    created = new_one_time id user_id token_hash expires_at now

-- expires_at > NOW() AND used_at IS NULL
unfoldable pub is_usable : Instant → OneTimeToken → Bool
is_usable now t = ltb now t.expires_at && not (is_some t.used_at)

-- SELECT id, user_id FROM … WHERE token_hash = $1 AND expires_at > NOW() AND used_at IS NULL; the
-- code reads the two columns alone
unfoldable pub select_token : Purpose → String → Instant → Db → Sql (Option OneTimeToken)
unfolding is_usable
select_token p hash now db =
    done (find_where (λ t. str_eq t.token_hash hash && is_usable now t) (tokens p db)) db

-- UPDATE … SET used_at = NOW() WHERE id = $1
unfoldable pub use_token : Purpose → Uuid → Instant → Db → Sql (Unit {0})
use_token p id now db =
    done tt (with_tokens p (update_by one_time_id id (used_now now) (tokens p db)) db)
