-- ===== src/Text/Parse.antt =====
-- `str::parse` of the integer types, and `to_lowercase` where its result is compared to ASCII text.
use Prim.Native.String.{[], ◌∷◌}
use rustpress_plugin_authpro.Base.{
  ℕ, zero, suc, ◌+◌, ◌-◌, ◌*◌, ◌≡◌, ◌≤◌, Char, code, String, Bool, ◌&&◌, Option, none, some, leb,
  ◌==◌, if◌then◌else◌, arith,
}
use rustpress_plugin_authpro.Base.Int.{ℤ, pos, negsuc}
use rustpress_plugin_authpro.Text.{is_ascii_digit}

unfoldable pub digits : String → ℕ → Option ℕ
digits [] n = some n
digits (c ∷ s) n =
    let rest = digits s (n * 10 + (code c - b'0')) in if is_ascii_digit c then rest else none

-- One digit or more.
unfoldable pub number : String → Option ℕ
unfolding digits
number [] = none
number (c ∷ s) = digits (c ∷ s) 0

abbrev at_most : ℕ → Option ℕ → Option ℕ
at_most max none = none
at_most max (some n) = if leb n max then some n else none

abbrev positive : Option ℕ → Option ℤ
positive none = none
positive (some n) = some (pos n)

abbrev negative : Option ℕ → Option ℤ
negative none = none
negative (some zero) = some (pos 0)
negative (some (suc n)) = some (negsuc n)

-- `parse::<uN>()`, with the greatest value; a sign `+` is allowed.
unfoldable pub parse_unsigned : ℕ → String → Option ℕ
unfolding number
parse_unsigned max [] = none
parse_unsigned max (c ∷ s) = at_most max (if code c == b'+' then number s else number (c ∷ s))

-- `parse::<iN>()`, from -(max + 1) to max.
unfoldable pub parse_signed : ℕ → String → Option ℤ
unfolding number
parse_signed max [] = none
parse_signed max (c ∷ s) =
    if code c == b'-'
    then negative (at_most (max + 1) (number s))
    else positive (at_most max (if code c == b'+' then number s else number (c ∷ s)))

at_most-bound : (max : ℕ) (o : Option ℕ) (n : ℕ) → at_most max o ≡ some n → n ≤ max
at_most-bound max none n e = cc
at_most-bound max (some m) n e = ground arith

-- What is parsed fits the type.
pub parse_unsigned-bound : (max : ℕ) (s : String) (n : ℕ) → parse_unsigned max s ≡ some n → n ≤ max
unfolding parse_unsigned
parse_unsigned-bound max [] n e = cc
parse_unsigned-bound max (c ∷ s) n e = at_most-bound max _ n e

abbrev lower : Char → ℕ
lower c = if leb b'A' (code c) && leb (code c) b'Z' then code c + 32 else code c

-- `s.to_lowercase() == word`, for a word of the letters of "true" and "yes" and digits: no other
-- character than these and their capitals has one of them as its lower case.
unfoldable pub lowercase_is : String → String → Bool
lowercase_is [] [] = Bool.true
lowercase_is [] (d ∷ word) = Bool.false
lowercase_is (c ∷ s) [] = Bool.false
lowercase_is (c ∷ s) (d ∷ word) = lower c == code d && lowercase_is s word
