-- ===== src/Db/Users.antt =====
-- The statements of service.rs on the table `users`. Each takes NOW() and the tables.
use rustpress_plugin_authpro.Base.{
  ℕ, String, str_eq, Bool, not, ◌&&◌, ◌||◌, Option, none, some, [], ◌∷◌, ◌++◌, find_by, find_where,
  any, update_by, ◌==◌, is_some, if◌then◌else◌,
}
use rustpress_plugin_authpro.Base.Int.{ℤ, pos, suc_ℤ, leb_ℤ, i32_max}
use rustpress_plugin_authpro.Models.{Uuid, Instant, User, active}
use rustpress_plugin_authpro.Models.Roles.{UserRole}
use rustpress_plugin_authpro.Db.{Db, Sql, done, fail, require, fits, fits?}

abbrev pub user_id : User → Uuid
user_id u = u.id

-- SELECT * FROM users WHERE email = $1
unfoldable pub select_user_by_email : String → Instant → Db → Sql (Option User)
select_user_by_email email now db = done (find_where (λ u. str_eq u.email email) db.users) db

-- SELECT * FROM users WHERE id = $1
unfoldable pub select_user : Uuid → Instant → Db → Sql (Option User)
select_user id now db = done (find_by user_id id db.users) db

-- The row that the column defaults complete.
abbrev pub new_user : Uuid → String → String → String → Instant → User
new_user id email password_hash name now = record {
  id = id;
  email = email;
  password_hash = password_hash;
  name = name;
  role = UserRole.user;
  status = active;
  avatar = none;
  bio = none;
  website = none;
  email_verified_at = none;
  last_login_at = none;
  last_login_ip = none;
  failed_login_attempts = pos 0;
  locked_until = none;
  password_changed_at = now;
  created_at = now;
  updated_at = now;
}

-- INSERT INTO users (email, password_hash, name, status) VALUES ($1, $2, $3, 'active') RETURNING *
unfoldable pub insert_user : Uuid → String → String → String → Instant → Db → Sql User
insert_user id email password_hash name now db =
    require (fits 255 email && fits 255 password_hash && fits 100 name) "value too long" (
      require (not (any (λ u. u.id == id) db.users)) "duplicate key value: users_pkey" (
        require (not (any (λ u. str_eq u.email email) db.users))
          "duplicate key value: users_email_key"
          (done created (record db { users = db.users ++ created ∷ [] }))))
  where
    created : User
    created = new_user id email password_hash name now

-- UPDATE users SET … WHERE id = $1, with the count of rows
abbrev pub update_user : Uuid → (User → User) → Db → Db
update_user id f db = record db { users = update_by user_id id f db.users }

-- failed_login_attempts + 1 >= $2
unfoldable pub reaches_limit : ℤ → User → Bool
reaches_limit max u = leb_ℤ max (suc_ℤ u.failed_login_attempts)

-- The assignments to a row; `lock_end` is NOW() + INTERVAL '1 second' * $3.
unfoldable pub count_failure : ℤ → Option Instant → Instant → User → User
unfolding reaches_limit
count_failure max lock_end now u = record u {
  failed_login_attempts = suc_ℤ u.failed_login_attempts;
  locked_until = if reaches_limit max u then lock_end else u.locked_until;
  updated_at = now;
}

-- The UPDATE of `increment_failed_attempts`, which answers with the rows affected. It fails where
-- the new count is no INTEGER, or the end of the lock no TIMESTAMPTZ (`none`). The primary key
-- allows one row at most.
unfoldable pub record_failure : Uuid → ℤ → (Instant → Option Instant) → Instant → Db → Sql ℕ
unfolding count_failure
record_failure id max lock_end now db = elim (find_by user_id id db.users) [
  | none ↦ done 0 db
  | some u ↦ require (leb_ℤ (suc_ℤ u.failed_login_attempts) i32_max) "integer out of range" (
      require (not (reaches_limit max u) || is_some (lock_end now)) "timestamp out of range"
        (done 1 (update_user id (count_failure max (lock_end now) now) db)))
]

-- The UPDATE of `record_successful_login`.
abbrev pub logged_in : Option String → Instant → User → User
logged_in ip now u = record u {
  failed_login_attempts = pos 0;
  locked_until = none;
  last_login_at = some now;
  last_login_ip = ip;
  updated_at = now;
}

unfoldable pub record_success : Uuid → Option String → Instant → Db → Sql (Unit {0})
record_success id ip now db =
    require (not (any (λ u. u.id == id) db.users) || fits? 45 ip) "value too long"
      (done tt (update_user id (logged_in ip now) db))

-- UPDATE users SET password_hash = $1, password_changed_at = NOW(), updated_at = NOW() WHERE id = $2
abbrev pub with_password : String → Instant → User → User
with_password hash now u = record u {
  password_hash = hash;
  password_changed_at = now;
  updated_at = now;
}

unfoldable pub set_password : Uuid → String → Instant → Db → Sql (Unit {0})
set_password id hash now db =
    require (not (any (λ u. u.id == id) db.users) || fits 255 hash) "value too long"
      (done tt (update_user id (with_password hash now) db))

-- UPDATE users SET email_verified_at = NOW(), status = 'active', updated_at = NOW() WHERE id = $1
-- RETURNING *, by `fetch_one`, which fails where no row comes back
abbrev pub verified : Instant → User → User
verified now u = record u { email_verified_at = some now; status = active; updated_at = now }

unfoldable pub set_email_verified : Uuid → Instant → Db → Sql User
set_email_verified id now db = elim (find_by user_id id db.users) [
  | none ↦ fail "no rows returned by a query that expected to return at least one row"
  | some u ↦ done (verified now u) (update_user id (verified now) db)
]
