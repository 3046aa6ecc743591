-- ===== src/Text/Tokens.antt =====
-- The text of a refresh token, `format!("{}.{}", jwt, token_string)`.
use Prim.Native.String.{[], ◌∷◌}
use text.Mathlib.TextLemmas.{nil-append, cons-append}
use rustpress_plugin_authpro.Base.{
  ap, ◌∙◌, ℕ, zero, suc, ◌%◌, ◌/◌, code, ◌≡◌, ◌≢◌, String, str_append, some, List, arith,
}
use rustpress_plugin_authpro.Text.{nth, hex_digit, base64_url_encode}
use rustpress_plugin_authpro.Text.Split.{dot, rsplit_dot, NoDot, rsplit_dot-format}

nth-NoDot : (s : String) (i : ℕ) → NoDot s → code (nth s i) ≢ b'.'
unfolding nth
nth-NoDot [] i h = omega arith
nth-NoDot (c ∷ s) zero (p, h) = p
nth-NoDot (c ∷ s) (suc i) (p, h) = nth-NoDot s i h

hex_digit-NoDot : (d : ℕ) → code (hex_digit d) ≢ b'.'
unfolding hex_digit
hex_digit-NoDot d = nth-NoDot "0123456789abcdef" (d % 16) (ground arith)

base64_url_encode-NoDot : (bytes : List ℕ) → NoDot (base64_url_encode bytes)
unfolding base64_url_encode
base64_url_encode-NoDot List.[] = tt
base64_url_encode-NoDot (List.◌∷◌ b bytes) =
    (hex_digit-NoDot (b / 16), (hex_digit-NoDot b, base64_url_encode-NoDot bytes))

dot-append : (s : String) → str_append "." s ≡ dot ∷ s
dot-append s = rw (cons-append, nil-append)

-- The service takes its own refresh tokens apart again: for any JWT, dots and all, and any random
-- bytes, it finds the JWT before the last dot and the encoded bytes after it.
pub refresh_token_parts :
    (jwt : String) (bytes : List ℕ)
    → rsplit_dot (str_append jwt (str_append "." (base64_url_encode bytes)))
      ≡ some (base64_url_encode bytes, jwt)
refresh_token_parts jwt bytes =
    ap (λ t. rsplit_dot (str_append jwt t)) (dot-append (base64_url_encode bytes))
    ∙ rsplit_dot-format jwt (base64_url_encode bytes) (base64_url_encode-NoDot bytes)
