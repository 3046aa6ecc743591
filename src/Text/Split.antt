-- ===== src/Text/Split.antt =====
-- `refresh_token.rsplitn(2, '.')`: the part after the last dot, and the part before it.
use Prim.Native.String.{[], ◌∷◌}
use text.Mathlib.TextLemmas.{nil-append, cons-append}
use rustpress_plugin_authpro.Base.{
  Char, code, String, str_append, ◌≡◌, refl, ◌≢◌, Option, none, some, arith, ◌==◌, if◌then◌else◌,
}

abbrev pub dot : Char
dot = "."

abbrev prepend : Char → Option (String × String) → Option (String × String)
prepend c none = none
prepend c (some (token, jwt)) = some (token, c ∷ jwt)

-- `parts.len() != 2` is `none`; otherwise (`parts[0]`, `parts[1]`), the text after the last dot first.
unfoldable pub rsplit_dot : String → Option (String × String)
rsplit_dot [] = none
rsplit_dot (c ∷ s) = elim (rsplit_dot s) [
  | none ↦ if code c == b'.' then some (s, "") else none
  | some (token, jwt) ↦ some (token, c ∷ jwt)
]

abbrev pub NoDot : String → Type 0
NoDot [] = Unit
NoDot (c ∷ s) = (code c ≢ b'.') × NoDot s

pub rsplit_dot-none : (s : String) → NoDot s → rsplit_dot s ≡ none
unfolding rsplit_dot
rsplit_dot-none [] h = refl
rsplit_dot-none (c ∷ s) (p, h) = rw (rsplit_dot-none s h, rsplit_dot) (ground arith)

-- `format!("{}.{}", jwt, token)` is taken apart again, if the token has no dot.
pub rsplit_dot-format :
    (jwt token : String)
    → NoDot token
    → rsplit_dot (str_append jwt (dot ∷ token)) ≡ some (token, jwt)
unfolding rsplit_dot
rsplit_dot-format [] token h = rw (nil-append, rsplit_dot-none token h, rsplit_dot)
rsplit_dot-format (c ∷ jwt) token h = rw (cons-append, rsplit_dot-format jwt token h, rsplit_dot)
