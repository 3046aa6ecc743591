-- ===== src/Text/Prefix.antt =====
-- `starts_with`, and `trim_start_matches`, which takes a prefix off as often as it stands there.
use Prim.Native.String.{[], ◌∷◌, count}
use rustpress_plugin_authpro.Base.{
  ℕ, zero, suc, code, String, Bool, Option, none, some, ◌==◌, is_some, if◌then◌else◌,
}

-- The text after the prefix, if it has it.
unfoldable pub strip_prefix : String → String → Option String
strip_prefix [] s = some s
strip_prefix (p ∷ prefix) [] = none
strip_prefix (p ∷ prefix) (c ∷ s) =
    let rest = strip_prefix prefix s in if code p == code c then rest else none

unfoldable pub starts_with : String → String → Bool
starts_with prefix s = is_some (strip_prefix prefix s)

abbrev pub go_on : Option String → String → (String → String) → String
go_on none s next = s
go_on (some rest) s next = next rest

-- On fuel: at most that many prefixes.
unfoldable pub trim_prefixes : ℕ → String → String → String
trim_prefixes zero prefix s = s
trim_prefixes (suc fuel) prefix s = go_on (strip_prefix prefix s) s (trim_prefixes fuel prefix)

-- `s.trim_start_matches(prefix)`, for a prefix that is not empty: each takes a character.
unfoldable pub trim_start_matches : String → String → String
trim_start_matches prefix s = trim_prefixes (count s) prefix s
