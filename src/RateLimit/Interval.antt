-- ===== src/RateLimit/Interval.antt =====
-- The bounds of the interval, and of a configuration that is read from the environment.
use rustpress_plugin_authpro.Base.{
  ℕ, ◌+◌, ◌-◌, ◌*◌, ◌/◌, ◌%◌, ◌^◌, ◌≡◌, ◌≤◌, ◌<◌, String, Option, none, some, arith, refl, leb,
  Bool-cases, inl, inr,
}
use native.Mathlib.Nat.{div-add-mod', mod-lt, div-le_self}
use rustpress_plugin_authpro.Text.Parse.{parse_unsigned-bound}
use rustpress_plugin_authpro.RateLimit.{
  RateLimitConfig, from_env, replenish_interval, or_default, above_zero, parsed,
}

-- The quotient, with the remainder multiplied out.
quotient_bounds :
    (n : ℕ)
    → 1 ≤ n
    → n ≤ 60000
    → (1 ≤ 60000 / n)
      × (60000 / n ≤ 60000)
      × (60000 / n * n ≤ 60000)
      × (60000 < (60000 / n + 1) * n)
quotient_bounds n low high =
    let whole = div-add-mod' 60000 n in
    let rest : 60000 % n < n = mod-lt 60000 (omega arith) in
    let positive : 1 ≤ 60000 / n = elim (Bool-cases (leb 1 (60000 / n))) [
      | inl some_time ↦ ground arith
      | inr no_time ↦
          let zero_quotient : 60000 / n ≡ 0 = ground arith in
          let nothing : 60000 / n * n ≡ 0 = rw zero_quotient (omega arith) in
          omega (arith, nothing, whole, rest)
    ] in
    let next : (60000 / n + 1) * n ≡ 60000 / n * n + n = ground arith in
    (positive, div-le_self 60000 n, omega (arith, whole), omega (arith, whole, rest, next))

-- The interval is between a millisecond and a minute. For a rate of 1 to 60000 requests a minute it
-- is the minute divided by the rate, rounded down: so many intervals fit into a minute, and would
-- not if they were a millisecond longer.
pub replenish_interval_lem :
    (cfg : RateLimitConfig)
    → (1 ≤ replenish_interval cfg)
      × (replenish_interval cfg ≤ 60000)
      × (1 ≤ cfg.per_minute
          → cfg.per_minute ≤ 60000
          → (replenish_interval cfg * cfg.per_minute ≤ 60000)
            × (60000 < (replenish_interval cfg + 1) * cfg.per_minute))
unfolding replenish_interval
replenish_interval_lem cfg = ground (arith, quotient_bounds cfg.per_minute)

or_default-bound :
    (o : Option ℕ) (n : ℕ)
    → 0 < n
    → n < 2 ^ 32
    → ((m : ℕ) → o ≡ some m → m ≤ 2 ^ 32 - 1)
    → (0 < or_default (above_zero o) n) × (or_default (above_zero o) n < 2 ^ 32)
or_default-bound none n low high h = (low, high)
or_default-bound (some m) n low high h = let small = h m refl in ground arith

parsed-bound : (v : Option String) (m : ℕ) → parsed v ≡ some m → m ≤ 2 ^ 32 - 1
parsed-bound none m e = cc
parsed-bound (some v) m e = parse_unsigned-bound (2 ^ 32 - 1) v m e

-- A configuration read from any environment has a rate and a burst of 1 or more that fit a u32.
pub from_env-bounds :
    (env : String → Option String)
    → (0 < (from_env env).per_minute)
      × ((from_env env).per_minute < 2 ^ 32)
      × (0 < (from_env env).burst)
      × ((from_env env).burst < 2 ^ 32)
unfolding from_env
from_env-bounds env =
    let (rate_low, rate_high) =
      or_default-bound (parsed (env "AUTHPRO_LOGIN_RATE_PER_MIN")) 10 (omega arith) (omega arith)
        (parsed-bound (env "AUTHPRO_LOGIN_RATE_PER_MIN")) in
    let (burst_low, burst_high) =
      or_default-bound (parsed (env "AUTHPRO_LOGIN_BURST")) 5 (omega arith) (omega arith)
        (parsed-bound (env "AUTHPRO_LOGIN_BURST")) in
    (rate_low, rate_high, burst_low, burst_high)
