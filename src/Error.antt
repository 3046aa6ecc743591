-- ===== src/Error.antt =====
-- error.rs: the errors of every operation, and the response that a client sees. A panic of the
-- code (an `expect`, an overflow in chrono) is the third kind of result, beside Ok and Err.
pub mod Response
use rustpress_plugin_authpro.Base.{String, ◌≡◌, refl, Option, none, some}

pub data AuthError : Type 0 where
  invalid_credentials account_locked account_not_active email_not_verified : AuthError
  invalid_token token_revoked user_not_found email_exists weak_password : AuthError
  validation database config : String → AuthError
  internal : AuthError

pub data Outcome {ℓ} (A : Type ℓ) : Type ℓ where
  ok : A → Outcome A
  err : AuthError → Outcome A
  panic : String → Outcome A

-- The `?` operator, for results with no state.
abbrev pub and_then {ℓ κ} : {A : Type ℓ} {B : Type κ} → Outcome A → (A → Outcome B) → Outcome B
and_then (ok a) f = f a
and_then (err e) f = err e
and_then (panic m) f = panic m

abbrev pub ok_or {ℓ} : {A : Type ℓ} → Option A → AuthError → Outcome A
ok_or none e = err e
ok_or (some a) e = ok a

abbrev pub or_panic {ℓ} : {A : Type ℓ} → Option A → String → Outcome A
or_panic none m = panic m
or_panic (some a) m = ok a
