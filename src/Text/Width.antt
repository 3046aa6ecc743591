-- ===== src/Text/Width.antt =====
-- How long a hash is: the hexadecimal digits of a u64.
use Prim.Native.String.{◌∷◌, count}
use text.Mathlib.TextLemmas.{length-cons}
use rustpress_plugin_authpro.Base.{
  ℕ, zero, suc, ◌+◌, ◌/◌, ◌≤◌, ◌≡◌, String, ltb, inl, inr, Bool-cases, arith,
}
use rustpress_plugin_authpro.Text.{hex_digit, hex_from, hex_u64}

count-hex_from : (fuel n : ℕ) (acc : String) → count (hex_from fuel n acc) ≤ fuel + count acc
unfolding hex_from
count-hex_from zero n acc = omega arith
count-hex_from (suc fuel) n acc =
    let rest = count-hex_from fuel (n / 16) (hex_digit n ∷ acc) in
    let longer : count (hex_digit n ∷ acc) ≡ suc (count acc) = length-cons (hex_digit n) acc in
    elim (Bool-cases (ltb n 16)) [
      | inl small ↦ rw small (omega (arith, longer))
      | inr big ↦ rw big (omega (arith, rest, longer))
    ]

-- A stored hash has 16 digits at most.
pub count-hex_u64 : (n : ℕ) → count (hex_u64 n) ≤ 16
unfolding hex_u64
count-hex_u64 n = count-hex_from 16 n ""
