-- ===== src/Text.antt =====
-- The string operations of the code that walk a text: `base64_url_encode` and the `{:x}` of
-- `hash_token` (service.rs), `rsplitn(2, '.')` on refresh tokens, and the password's characters.
pub mod Split
pub mod HexValue
pub mod PrefixLaws
pub mod Decimal
pub mod Trim
pub mod Parse
pub mod Prefix
pub mod Width
pub mod Tokens
use Prim.Native.String.{[], ◌∷◌}
use rustpress_plugin_authpro.Base.{
  ℕ, zero, suc, ◌/◌, ◌%◌, Char, code, String, Bool, false, ◌&&◌, ◌||◌, Option, none, some, List,
  ltb, leb, ◌==◌, if◌then◌else◌,
}

-- The character at a position, and `0` past the end.
unfoldable pub nth : String → ℕ → Char
nth [] i = "0"
nth (c ∷ s) zero = c
nth (c ∷ s) (suc i) = nth s i

unfoldable pub hex_digit : ℕ → Char
unfolding nth
hex_digit d = nth "0123456789abcdef" (d % 16)

-- `base64_url_encode`: its loop writes each byte by `{:02x}`, two hexadecimal digits.
unfoldable pub base64_url_encode : List ℕ → String
unfolding hex_digit
base64_url_encode List.[] = ""
base64_url_encode (List.◌∷◌ b bytes) = hex_digit (b / 16) ∷ hex_digit b ∷ base64_url_encode bytes

unfoldable pub hex_from : ℕ → ℕ → String → String
hex_from zero n acc = acc
hex_from (suc fuel) n acc =
    let longer = hex_from fuel (n / 16) (hex_digit n ∷ acc) in
    if ltb n 16 then hex_digit n ∷ acc else longer

-- `format!("{:x}", n)` of a u64, which has at most 16 digits.
unfoldable pub hex_u64 : ℕ → String
unfolding hex_from hex_digit
hex_u64 n = hex_from 16 n ""

-- `char::is_ascii_digit`
abbrev pub is_ascii_digit : Char → Bool
is_ascii_digit c = leb b'0' (code c) && leb (code c) b'9'

-- `s.chars().any(p)`
abbrev pub any_char : (Char → Bool) → String → Bool
any_char p [] = false
any_char p (c ∷ s) = p c || any_char p s

-- `str.is_empty()`
abbrev pub is_empty : String → Bool
is_empty [] = Bool.true
is_empty (c ∷ s) = false
