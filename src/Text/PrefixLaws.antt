-- ===== src/Text/PrefixLaws.antt =====
-- The fuel of `trim_start_matches` is enough, and what is left after one prefix.
use Prim.Native.String.{[], ◌∷◌, count}
use text.Mathlib.TextLemmas.{nil-append, cons-append, length-cons}
use rustpress_plugin_authpro.Base.{
  Char, ℕ, zero, suc, ◌≤◌, ◌<◌, ◌≡◌, refl, ap, ◌∙◌, String, str_append, code, true, false, Option,
  none, some, ◌==◌, ==_refl, is_some, arith, Bool-cases, inl, inr,
}
use rustpress_plugin_authpro.Text.Prefix.{
  strip_prefix, starts_with, trim_prefixes, trim_start_matches,
}

strip_prefix-shorter : (p s r : String) → strip_prefix p s ≡ some r → count r ≤ count s
unfolding strip_prefix
strip_prefix-shorter [] s r e = let same : s ≡ r = cc e in rw same (omega arith)
strip_prefix-shorter (p ∷ prefix) [] r e = cc e
strip_prefix-shorter (p ∷ prefix) (c ∷ s) r e = elim (Bool-cases (code p == code c)) [
  | inl hit ↦
      let shorter = strip_prefix-shorter prefix s r (ground arith) in
      omega (arith, shorter, length-cons c s)
  | inr miss ↦ ground arith
]

strip_prefix-nil : (p : Char) (prefix : String) → strip_prefix (p ∷ prefix) [] ≡ none
unfolding strip_prefix
strip_prefix-nil p prefix = refl

-- A prefix that is not empty takes a character at least.
strip_prefix-strict :
    (p : Char) (prefix s r : String) → strip_prefix (p ∷ prefix) s ≡ some r → count r < count s
unfolding strip_prefix
strip_prefix-strict p prefix [] r e = cc e
strip_prefix-strict p prefix (c ∷ s) r e = elim (Bool-cases (code p == code c)) [
  | inl hit ↦
      let shorter = strip_prefix-shorter prefix s r (ground arith) in
      omega (arith, shorter, length-cons c s)
  | inr miss ↦ ground arith
]

module _ (p : Char) (prefix : String) where
  abbrev Trimmed : String → Type 0
  Trimmed s = starts_with (p ∷ prefix) s ≡ false

  trim-step :
      (fuel : ℕ) (s : String) (o : Option String)
      → ((r : String) → count r ≤ fuel → Trimmed (trim_prefixes fuel (p ∷ prefix) r))
      → strip_prefix (p ∷ prefix) s ≡ o
      → count s ≤ suc fuel
      → Trimmed (trim_prefixes (suc fuel) (p ∷ prefix) s)
  unfolding trim_prefixes starts_with
  trim-step fuel s none ih e room = rw e (rw e)
  trim-step fuel s (some rest) ih e room =
      let shorter = strip_prefix-strict p prefix s rest e in rw e (ih rest (omega (arith, shorter)))

  trim_prefixes-Trimmed :
      (fuel : ℕ) (s : String) → count s ≤ fuel → Trimmed (trim_prefixes fuel (p ∷ prefix) s)
  unfolding trim_prefixes starts_with
  trim_prefixes-Trimmed zero [] room = rw (strip_prefix-nil p prefix)
  trim_prefixes-Trimmed zero (c ∷ s) room = ground (arith, length-cons c s)
  trim_prefixes-Trimmed (suc fuel) s room =
      trim-step fuel s (strip_prefix (p ∷ prefix) s) (trim_prefixes-Trimmed fuel) refl room

  -- `trim_start_matches` comes to its end: the fuel of one unit for each character is enough, and
  -- what is left does not start with the prefix, whatever text that is not empty the prefix is.
  trim_start_matches-Trimmed : (s : String) → Trimmed (trim_start_matches (p ∷ prefix) s)
  unfolding trim_start_matches
  trim_start_matches-Trimmed s = trim_prefixes-Trimmed (count s) s (omega arith)

strip_prefix-append : (p s : String) → strip_prefix p (str_append p s) ≡ some s
unfolding strip_prefix
strip_prefix-append [] s = rw nil-append
strip_prefix-append (c ∷ p) s =
    rw (cons-append c p s, strip_prefix) (ground (arith, strip_prefix-append p s, ==_refl (code c)))

starts_with-none : (p s : String) → starts_with p s ≡ false → strip_prefix p s ≡ none
unfolding starts_with
starts_with-none p s e = known (strip_prefix p s) e
  where
    known : (o : Option String) → is_some o ≡ false → o ≡ none
    known none e = refl
    known (some r) e = cc e

trim_prefixes-clean :
    (fuel : ℕ) (p s : String) → strip_prefix p s ≡ none → trim_prefixes fuel p s ≡ s
unfolding trim_prefixes
trim_prefixes-clean zero p s e = refl
trim_prefixes-clean (suc fuel) p s e = rw e

-- One prefix is taken off a text that does not start with another.
pub trim_start_matches-append :
    (p : Char) (prefix s : String)
    → starts_with (p ∷ prefix) s ≡ false
    → trim_start_matches (p ∷ prefix) (str_append (p ∷ prefix) s) ≡ s
unfolding trim_start_matches trim_prefixes
trim_start_matches-append p prefix s clean =
    let size : count (str_append (p ∷ prefix) s) ≡ suc (count (str_append prefix s)) =
      ap count (cons-append p prefix s) ∙ length-cons p (str_append prefix s) in
    rw (size, strip_prefix-append (p ∷ prefix) s)
      (trim_prefixes-clean (count (str_append prefix s)) (p ∷ prefix) s
        (starts_with-none (p ∷ prefix) s clean))

pub starts_with-append : (p s : String) → starts_with p (str_append p s) ≡ true
unfolding starts_with
starts_with-append p s = rw (strip_prefix-append p s)
