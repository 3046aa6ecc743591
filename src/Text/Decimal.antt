-- ===== src/Text/Decimal.antt =====
-- `to_string` of a u64: its decimal digits, at most 20.
use Prim.Native.String.{◌∷◌}
use rustpress_plugin_authpro.Base.{ℕ, zero, suc, ◌/◌, ◌%◌, Char, String, ltb, if◌then◌else◌}
use rustpress_plugin_authpro.Text.{nth}

unfoldable pub decimal_digit : ℕ → Char
unfolding nth
decimal_digit d = nth "0123456789" (d % 10)

unfoldable pub decimal_from : ℕ → ℕ → String → String
unfolding decimal_digit
decimal_from zero n acc = acc
decimal_from (suc fuel) n acc =
    let longer = decimal_from fuel (n / 10) (decimal_digit n ∷ acc) in
    if ltb n 10 then decimal_digit n ∷ acc else longer

unfoldable pub decimal : ℕ → String
unfolding decimal_from
decimal n = decimal_from 20 n ""
