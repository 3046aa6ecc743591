-- ===== src/Text/HexValue.antt =====
-- The hexadecimal digits of a u64, read back: 16 digits are enough.
use Prim.Native.String.{[], ◌∷◌, count}
use text.Mathlib.TextLemmas.{length-cons}
use rustpress_plugin_authpro.Base.{
  ℕ, zero, suc, ◌+◌, ◌-◌, ◌*◌, ◌/◌, ◌%◌, ◌^◌, ◌<◌, ◌≡◌, refl, ap, ◌∙◌, Char, code, String, Bool,
  true, ◌&&◌, ltb, leb, ◌==◌, arith, Bool-cases, inl, inr, if◌then◌else◌,
}
use rustpress_plugin_authpro.Text.{nth, hex_digit, hex_from, hex_u64}

abbrev pub digit_value : Char → ℕ
digit_value c = if leb (code c) b'9' then code c - b'0' else code c - 87

-- The number that digits continue, the first digit first.
unfoldable pub hex_value : ℕ → String → ℕ
hex_value n [] = n
hex_value n (c ∷ s) = hex_value (n * 16 + digit_value c) s

abbrev counts_from : ℕ → String → Bool
counts_from k [] = true
counts_from k (c ∷ s) = digit_value c == k && counts_from (suc k) s

nth-value :
    (s : String) (k i : ℕ) → counts_from k s ≡ true → i < count s → digit_value (nth s i) ≡ k + i
unfolding nth
nth-value [] k i h small = omega arith
nth-value (c ∷ s) k zero h small = ground arith
nth-value (c ∷ s) k (suc i) h small =
    nth-value s (suc k) i (ground arith) (omega (arith, length-cons c s)) ∙ omega arith

hex_digit-value : (n : ℕ) → digit_value (hex_digit n) ≡ n % 16
unfolding hex_digit
hex_digit-value n = nth-value "0123456789abcdef" 0 (n % 16) refl (omega arith) ∙ omega arith

hex_value-cons :
    (n k : ℕ) (c : Char) (s : String)
    → digit_value c ≡ k
    → hex_value n (c ∷ s) ≡ hex_value (n * 16 + k) s
unfolding hex_value
hex_value-cons n k c s e = ap (λ d. hex_value (n * 16 + d) s) e

hex_value-hex_from :
    (fuel n : ℕ) (acc : String)
    → n < 16 ^ fuel
    → hex_value 0 (hex_from fuel n acc) ≡ hex_value n acc
unfolding hex_from
hex_value-hex_from zero n acc small = ap (λ k. hex_value k acc) (omega arith)
hex_value-hex_from (suc fuel) n acc small =
    let power : 16 ^ suc fuel ≡ 16 * 16 ^ fuel = omega arith in
    let smaller : n / 16 < 16 ^ fuel = omega (arith, power) in
    let rest = hex_value-hex_from fuel (n / 16) (hex_digit n ∷ acc) smaller in
    elim (Bool-cases (ltb n 16)) [
      | inl last ↦
          let same : 0 * 16 + n % 16 ≡ n = ground arith in
          rw last (
            hex_value-cons 0 (n % 16) (hex_digit n) acc (hex_digit-value n)
            ∙ ap (λ k. hex_value k acc) same)
      | inr more ↦
          let same : n / 16 * 16 + n % 16 ≡ n = omega arith in
          rw more (
            rest
            ∙ hex_value-cons (n / 16) (n % 16) (hex_digit n) acc (hex_digit-value n)
            ∙ ap (λ k. hex_value k acc) same)
    ]

-- The 16 digits that the print of a hash may take are enough for every u64: read back, they are the
-- number, so two hashes that are printed alike are the same number.
pub hex_value-hex_u64 : (n : ℕ) → n < 2 ^ 64 → hex_value 0 (hex_u64 n) ≡ n
unfolding hex_u64 hex_value
hex_value-hex_u64 n small = hex_value-hex_from 16 n "" (omega arith)
