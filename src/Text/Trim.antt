-- ===== src/Text/Trim.antt =====
-- `split(',').next()` and `trim`, on the texts that a header's `to_str` gives: visible ASCII, spaces
-- and tabs, so that these two are all the white space.
use Prim.Native.String.{[], ◌∷◌}
use rustpress_plugin_authpro.Base.{Char, code, String, Bool, ◌&&◌, ◌||◌, ◌==◌, if◌then◌else◌}
use rustpress_plugin_authpro.Text.{is_empty}

unfoldable pub before_comma : String → String
before_comma [] = ""
before_comma (c ∷ s) = let rest = before_comma s in if code c == b',' then "" else c ∷ rest

abbrev pub is_space : Char → Bool
is_space c = code c == 32 || code c == 9

unfoldable pub trim_start : String → String
trim_start [] = ""
trim_start (c ∷ s) = let rest = trim_start s in if is_space c then rest else c ∷ s

unfoldable pub trim_end : String → String
trim_end [] = ""
trim_end (c ∷ s) = let rest = trim_end s in if is_space c && is_empty rest then "" else c ∷ rest

unfoldable pub trim : String → String
unfolding trim_start trim_end
trim s = trim_end (trim_start s)
