-- ===== src/Externals.antt =====
-- What the plugin calls and does not implement: clocks, randomness, database failures, and the
-- crates chrono, argon2, jsonwebtoken, validator and the tables of Unicode. A value that changes
-- from call to call is a function of the number of external calls made before it (`World.step`).
use rustpress_plugin_authpro.Base.{ℕ, Char, String, Bool, Option, List}
use rustpress_plugin_authpro.Base.Int.{ℤ}
use rustpress_plugin_authpro.Models.{Uuid, Instant}
use rustpress_plugin_authpro.Models.Claims.{AccessTokenClaims, RefreshTokenClaims}

-- `jsonwebtoken::Validation`, as far as the code sets it.
pub record Validation : Type 0 where
  pub issuer : String
  pub audience : Option String
  pub checks_signature : Bool

-- The costs that are given to `argon2::Params::new`.
pub record Argon2Params : Type 0 where
  pub memory_cost : ℕ
  pub time_cost : ℕ
  pub parallelism : ℕ

pub record Externals : Type 0 where
  -- `Utc::now()` and Postgres's NOW()
  pub utc_now : ℕ → Instant
  pub db_now : ℕ → Instant
  -- the error of a statement that does not reach the database, if it does not
  pub db_fault : ℕ → Option String
  -- `Uuid::new_v4()`, gen_random_uuid(), `thread_rng().gen::<[u8; 32]>()`, `SaltString::generate`
  pub new_uuid : ℕ → Uuid
  pub random_bytes : ℕ → List ℕ
  pub salt : ℕ → String
  -- `now + Duration::seconds(n)`, `none` for its panic, and NOW() + n seconds in SQL, `none` for
  -- its error
  pub add_seconds : Instant → ℤ → Option Instant
  pub db_add_seconds : Instant → ℤ → Option Instant
  pub timestamp : Instant → ℤ
  -- `Params::new(…).is_ok()`, `hash_password`, `PasswordHash::new(…).is_ok()`, `verify_password`
  pub params_valid : Argon2Params → Bool
  pub argon2_hash : Argon2Params → String → String → Option String
  pub hash_valid : String → Bool
  pub argon2_verify : Argon2Params → String → String → Bool
  -- `encode` and `decode` with the key that is made of the secret; `decode` reads the clock
  pub encode_access : String → AccessTokenClaims → Option String
  pub encode_refresh : String → RefreshTokenClaims → Option String
  pub decode_access : String → Validation → Instant → String → Option AccessTokenClaims
  pub decode_refresh : String → Validation → Instant → String → Option RefreshTokenClaims
  -- `DefaultHasher` over the token and then the secret
  pub finish : String → String → ℕ
  pub is_uppercase : Char → Bool
  pub is_lowercase : Char → Bool
