-- ===== src/Plugin/Migrations.antt =====
-- `run_migrations` of lib.rs: the statements that create what is not there yet. What an object
-- stands on must be there when it is created; the rows are in Db.
pub mod Compatible
pub mod Complete
use rustpress_plugin_authpro.Base.{
  ℕ, suc, String, str_eq, Bool, true, false, ◌&&◌, ◌||◌, ◌==◌, Option, none, some, List, [], ◌∷◌,
  any, if◌then◌else◌,
}
use rustpress_plugin_authpro.Error.{Outcome, ok, err, database}

-- The types, tables and indexes, in the order of the code.
pub data Object : Type 0 where
  user_role user_status users idx_users_email idx_users_status refresh_tokens : Object
  idx_refresh_tokens_user idx_refresh_tokens_expires password_reset_tokens : Object
  email_verification_tokens : Object

abbrev pub number : Object → ℕ
number user_role = 0
number user_status = 1
number users = 2
number idx_users_email = 3
number idx_users_status = 4
number refresh_tokens = 5
number idx_refresh_tokens_user = 6
number idx_refresh_tokens_expires = 7
number password_reset_tokens = 8
number email_verification_tokens = 9

-- What is there under the name of an object, made by this code or by somebody else: of a table, the
-- columns that an index can be on, and those of type UUID that a foreign key can refer to.
pub record Entry : Type 0 where
  pub object : Object
  pub columns : List String
  pub keys : List String

abbrev pub Schema : Type 0
Schema = List Entry

abbrev pub is_of : Object → Entry → Bool
is_of o e = number e.object == number o

abbrev pub has : Object → Schema → Bool
has o schema = any (is_of o) schema

abbrev pub has_column : String → Entry → Bool
has_column name e = any (λ s. str_eq s name) e.columns

abbrev pub has_key : String → Entry → Bool
has_key name e = any (λ s. str_eq s name) e.keys

abbrev pub offers : Object → (Entry → Bool) → Schema → Bool
offers o test schema = any (λ e. is_of o e && test e) schema

-- The types of the columns, the tables and columns of REFERENCES, and the column of an index.
abbrev pub has_base : Object → Schema → Bool
has_base user_role schema = true
has_base user_status schema = true
has_base users schema = has user_role schema && has user_status schema
has_base idx_users_email schema = offers users (has_column "email") schema
has_base idx_users_status schema = offers users (has_column "status") schema
has_base refresh_tokens schema = offers users (has_key "id") schema
has_base idx_refresh_tokens_user schema = offers refresh_tokens (has_column "user_id") schema
has_base idx_refresh_tokens_expires schema = offers refresh_tokens (has_column "expires_at") schema
has_base password_reset_tokens schema = offers users (has_key "id") schema
has_base email_verification_tokens schema = offers users (has_key "id") schema

-- The columns of CREATE TABLE.
abbrev pub columns_of : Object → List String
columns_of users =
    "id" ∷ "email" ∷ "password_hash" ∷ "name" ∷ "role" ∷ "status" ∷ "avatar" ∷ "bio" ∷ "website"
    ∷ "email_verified_at" ∷ "last_login_at" ∷ "last_login_ip" ∷ "failed_login_attempts"
    ∷ "locked_until" ∷ "password_changed_at" ∷ "created_at" ∷ "updated_at" ∷ []
columns_of refresh_tokens =
    "id" ∷ "user_id" ∷ "token_hash" ∷ "expires_at" ∷ "issued_at" ∷ "revoked_at" ∷ "replaced_by"
    ∷ "user_agent" ∷ "ip_address" ∷ "created_at" ∷ []
columns_of password_reset_tokens =
    "id" ∷ "user_id" ∷ "token_hash" ∷ "expires_at" ∷ "used_at" ∷ "created_at" ∷ []
columns_of email_verification_tokens =
    "id" ∷ "user_id" ∷ "token_hash" ∷ "expires_at" ∷ "used_at" ∷ "created_at" ∷ []
columns_of _ = []

abbrev pub keys_of : Object → List String
keys_of users = "id" ∷ []
keys_of refresh_tokens = "id" ∷ []
keys_of password_reset_tokens = "id" ∷ []
keys_of email_verification_tokens = "id" ∷ []
keys_of _ = []

abbrev pub created : Object → Entry
created o = record { object = o; columns = columns_of o; keys = keys_of o }

-- CREATE … IF NOT EXISTS, or a block that takes duplicate_object for done: the new schema, or
-- nothing where the statement fails. What is there already is left alone, whatever its columns.
unfoldable pub create : Object → Schema → Option Schema
create o schema =
    if has o schema
    then some schema
    else if has_base o schema
    then some (created o ∷ schema)
    else none

abbrev pub statements : List Object
statements =
    user_role
    ∷ (user_status
        ∷ (users
            ∷ (idx_users_email
                ∷ (idx_users_status
                    ∷ (refresh_tokens
                        ∷ (idx_refresh_tokens_user
                            ∷ (idx_refresh_tokens_expires
                                ∷ (password_reset_tokens ∷ (email_verification_tokens ∷ [])))))))))

-- One `.execute(db).await?`, and what follows it.
abbrev pub execute :
    Option String
    → Option Schema
    → (Schema → Outcome (Unit {0}) × Schema)
    → Schema
    → Outcome (Unit {0}) × Schema
execute (some message) created rest schema = (err (database message), schema)
execute none none rest schema = (err (database "relation or column does not exist"), schema)
execute none (some schema') rest schema = rest schema'

-- `fault n` is the error of the n-th statement, if it does not reach the database.
unfoldable pub run_all :
    (ℕ → Option String) → ℕ → List Object → Schema → Outcome (Unit {0}) × Schema
run_all fault n [] schema = (ok tt, schema)
run_all fault n (o ∷ os) schema =
    execute (fault n) (create o schema) (run_all fault (suc n) os) schema

unfoldable pub run_migrations : (ℕ → Option String) → Schema → Outcome (Unit {0}) × Schema
run_migrations fault schema = run_all fault 0 statements schema
