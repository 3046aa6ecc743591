-- ===== src/Lib.antt =====
-- A model of the RustPress authentication plugin (the Rust crate under `src/`) and the theorems on
-- it. The plugin registers users, checks passwords, locks accounts, hands out access and refresh
-- tokens, rotates them, resets passwords and verifies emails, on four tables of a Postgres database.
--
-- The files, and the code they model:
--   Base, Base/*: lists, options, strings, integers and tables, with the lemmas that all parts use.
--   Text, Text/*: `base64_url_encode`, the `{:x}` of `hash_token` and the split of refresh tokens
--     (src/service.rs), and what the code uses of str: `parse`, `to_lowercase`, `starts_with` and
--     `trim_start_matches`.
--   Error, Error/Response: `AuthError` and `IntoResponse` (src/error.rs).
--   Models, Models/*: entities, roles, requests, responses, claims (src/models.rs).
--   Config, Config/*: `AuthConfig`, `from_env` and `validate` (src/config.rs).
--   Externals: what the code calls and does not implement, as one record.
--   Db, Db/*: the tables of `run_migrations` (src/lib.rs) and the SQL statements of src/service.rs,
--     one function each, with the constraints that can make it fail. Db/Effects inverts them, and
--     Db/Changes says apart from the code what lookups find after them.
--   Exec, Exec/*: the monad of the service's methods. A method takes a `World`, which is the tables
--     and the number of external calls made so far, and ends with a value, an error or a panic, and
--     a `World`. There is no transaction in the code: an error keeps the writes made before it.
--   Service, Service/*: the methods of `AuthService` (src/service.rs), the public and the private,
--     with their guards and calls in the code's order. Service/Calls runs any sequence of them;
--     Service/Calls/Histories, any sequence of the statements they are made of, as requests at once
--     may interleave them. Service/Login/Machine is the lockout of an account without the tables.
--   Extractors, Extractors/*: `AuthUser` and `ClientInfo` (src/extractors.rs).
--   Handlers, Handlers/*: the handlers (src/handlers.rs) and the validation of their requests
--     (src/models.rs).
--   Middleware, Middleware/*: the guards of src/middleware.rs, and the service's tokens at them.
--   RateLimit, RateLimit/*: src/rate_limit.rs.
--   Router, Router/*: the routes of src/handlers.rs, and a request on its way through the limiter or
--     `require_auth`, the extractors and a handler to the response. Router/Traffic runs any sequence
--     of requests.
--   Plugin, Plugin/*: the life cycle and the migrations of src/lib.rs.
--   Safety, Safety/*: what no sequence of calls can break.
--   Examples, Examples/*: the theorems at concrete tables.
--
-- An instant is a natural number of microseconds, a UUID its 128-bit number. An i64 or i32 is an
-- integer; the INTEGER column `failed_login_attempts` fails at 2 ^ 31 as Postgres does. Each clock,
-- random source and database fault is a function of the number of external calls made before it, so
-- that two calls may answer differently. `Uuid::new_v4()` and the default of an `id` column are
-- draws too. Every loop is structural, except the hexadecimal print of a u64, which runs on 16
-- units of fuel, its greatest number of digits, and the trim of a prefix, which runs on one unit for
-- each character of the text.
--
-- Calls run one after another, but in Service/Calls/Histories, where the statements of many come in
-- any order, in Service/Refresh/Race, where two refreshes interleave between the check of a row and
-- its update, in Service/Reset/Race, where two resets do between the SELECT of a token and its use,
-- in Service/Account/Race, where two registrations do between the search for the email and the
-- insert, in Service/Login/Race, where many logins do between the check of the lock and that of the
-- password, and in Plugin/Interleaved, where an activation and a deactivation do between the locks
-- of the plugin's fields. Logging is left out, and the tests. A text that is too long for a VARCHAR
-- by spaces at its end alone is refused, where Postgres cuts it. A request enters the router with
-- its body parsed, since axum and serde do that. Argon2, jsonwebtoken, chrono, DefaultHasher and
-- Unicode's tables are parameters, in `Externals`; the crate validator is one in
-- Handlers/Validation; the verdict and the builder of tower_governor are arguments in Router/Serve
-- and RateLimit/Answers; the environment and the headers are functions.
pub mod Base
pub mod Text
pub mod Error
pub mod Models
pub mod Config
pub mod Externals
pub mod Db
pub mod Exec
pub mod Service
pub mod Extractors
pub mod Handlers
pub mod Middleware
pub mod RateLimit
pub mod Router
pub mod Plugin
pub mod Safety
pub mod Examples
