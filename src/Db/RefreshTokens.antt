-- ===== src/Db/RefreshTokens.antt =====
-- The statements of service.rs on the table `refresh_tokens`.
use rustpress_plugin_authpro.Base.{
  String, str_eq, Bool, not, ◌&&◌, Option, none, some, [], ◌∷◌, ◌++◌, find_where, any, update_by,
  update_where, ◌==◌, is_some,
}
use rustpress_plugin_authpro.Models.{Uuid, Instant, RefreshToken}
use rustpress_plugin_authpro.Db.{Db, Sql, done, require, fits, fits?}

abbrev pub token_id : RefreshToken → Uuid
token_id t = t.id

-- The row that the column defaults complete.
abbrev pub new_token :
    Uuid → Uuid → String → Instant → Option String → Option String → Instant → RefreshToken
new_token id user_id token_hash expires_at ip_address user_agent now = record {
  id = id;
  user_id = user_id;
  token_hash = token_hash;
  expires_at = expires_at;
  issued_at = now;
  revoked_at = none;
  replaced_by = none;
  user_agent = user_agent;
  ip_address = ip_address;
  created_at = now;
}

-- INSERT INTO refresh_tokens (id, user_id, token_hash, expires_at, ip_address, user_agent) …
unfoldable pub insert_refresh_token :
    Uuid → Uuid → String → Instant → Option String → Option String → Instant → Db → Sql (Unit {0})
insert_refresh_token id user_id token_hash expires_at ip_address user_agent now db =
    require (fits 255 token_hash && fits? 45 ip_address) "value too long" (
      require (not (any (λ t. t.id == id) db.refresh_tokens)) "duplicate key value" (
        require (not (any (λ t. str_eq t.token_hash token_hash) db.refresh_tokens))
          "duplicate key value"
          (require (any (λ u. u.id == user_id) db.users) "violates foreign key constraint"
            (done tt (record db { refresh_tokens = db.refresh_tokens ++ created ∷ [] })))))
  where
    created : RefreshToken
    created = new_token id user_id token_hash expires_at ip_address user_agent now

-- SELECT * FROM refresh_tokens WHERE id = $1 AND token_hash = $2
unfoldable pub select_refresh_token : Uuid → String → Instant → Db → Sql (Option RefreshToken)
select_refresh_token id hash now db =
    done (find_where (λ t. t.id == id && str_eq t.token_hash hash) db.refresh_tokens) db

abbrev pub revoked_now : Instant → RefreshToken → RefreshToken
revoked_now now t = record t { revoked_at = some now }

-- UPDATE refresh_tokens SET revoked_at = NOW() WHERE id = $1
unfoldable pub revoke_token : Uuid → Instant → Db → Sql (Unit {0})
revoke_token id now db =
    done tt
      (record db { refresh_tokens = update_by token_id id (revoked_now now) db.refresh_tokens })

-- user_id = $1 AND revoked_at IS NULL
abbrev pub is_live_of : Uuid → RefreshToken → Bool
is_live_of user_id t = t.user_id == user_id && not (is_some t.revoked_at)

-- UPDATE refresh_tokens SET revoked_at = NOW() WHERE user_id = $1 AND revoked_at IS NULL
unfoldable pub revoke_user_tokens : Uuid → Instant → Db → Sql (Unit {0})
revoke_user_tokens user_id now db = done tt (record db {
  refresh_tokens = update_where (is_live_of user_id) (revoked_now now) db.refresh_tokens;
})
