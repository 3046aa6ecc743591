-- ===== src/Base/Tables.antt =====
-- Tables as lists of rows: the first row that passes a test, an update of all that do, and how the
-- two meet when the test is on a key.
use Prim.Native.Nat.{ℕ, suc}
use mathlib.Core.Path.{◌≡◌, refl}
use mathlib.Core.Logic.{inl, inr}
use mathlib.Core.Bool.{Bool, true, false, ◌||◌}
use mathlib.Core.Option.{Option, none, some}
use mathlib.Core.Option
use mathlib.Core.List.{List, [], ◌∷◌, ◌++◌}
use native.Mathlib.Omega.{arith}
use rustpress_plugin_authpro.Base.Tests.{◌==◌, if◌then◌else◌, Bool-cases}

module _ {ℓ} {A : Type ℓ} where
  abbrev pub length : List A → ℕ
  length [] = 0
  length (x ∷ xs) = suc (length xs)

  abbrev pub find_where : (A → Bool) → List A → Option A
  find_where p [] = none
  find_where p (x ∷ xs) = if p x then some x else find_where p xs

  abbrev pub any : (A → Bool) → List A → Bool
  any p [] = false
  any p (x ∷ xs) = p x || any p xs

  abbrev pub update_where : (A → Bool) → (A → A) → List A → List A
  update_where p f [] = []
  update_where p f (x ∷ xs) = (if p x then f x else x) ∷ update_where p f xs

  abbrev pub All {κ} : (A → Type κ) → List A → Type κ
  All P [] = Unit
  All P (x ∷ xs) = P x × All P xs

  -- What the search returns passes the test.
  pub find_where_sound :
      (p : A → Bool) (xs : List A) (a : A) → find_where p xs ≡ some a → p a ≡ true
  find_where_sound p [] a e = ground arith
  find_where_sound p (x ∷ xs) a e = elim (Bool-cases (p x)) [
    | inl hit ↦ ground arith
    | inr miss ↦ find_where_sound p xs a (ground arith)
  ]

  pub find_where-All {κ} :
      (P : A → Type κ) (p : A → Bool) (xs : List A) (a : A)
      → All P xs
      → find_where p xs ≡ some a
      → P a
  find_where-All P p [] a h e = ground arith
  find_where-All P p (x ∷ xs) a h e = elim (Bool-cases (p x)) [
    | inl hit ↦ ground arith
    | inr miss ↦ find_where-All P p xs a h.1 (ground arith)
  ]

  -- A search that finds nothing stays empty-handed after an update that never helps the test.
  pub find-update_none :
      (q p : A → Bool) (f : A → A)
      → ((x : A) → q (f x) ≡ true → q x ≡ true)
      → (xs : List A) → find_where q xs ≡ none
      → find_where q (update_where p f xs) ≡ none
  find-update_none q p f back [] e = refl
  find-update_none q p f back (x ∷ xs) e = ground (arith, back x, find-update_none q p f back xs)

  module _ (key : A → ℕ) where
    -- SELECT … WHERE key = k
    abbrev pub find_by : ℕ → List A → Option A
    find_by k = find_where (λ a. key a == k)

    -- UPDATE … WHERE key = k
    abbrev pub update_by : ℕ → (A → A) → List A → List A
    update_by k = update_where (λ a. key a == k)

    pub find-update_by :
        (k j : ℕ) (f : A → A)
        → ((a : A) → key (f a) ≡ key a)
        → (xs : List A)
        → find_by k (update_by j f xs)
          ≡ (if j == k then Option.map f (find_by k xs) else find_by k xs)
    find-update_by k j f same [] = ground arith
    find-update_by k j f same (x ∷ xs) = ground (arith, same x, find-update_by k j f same xs)

    -- An update of arbitrary rows that keeps the keys changes at most what a search returns.
    pub find-update_where :
        (k : ℕ) (p : A → Bool) (f : A → A)
        → ((a : A) → key (f a) ≡ key a)
        → (xs : List A)
        → find_by k (update_where p f xs) ≡ Option.map (λ a. if p a then f a else a) (find_by k xs)
    find-update_where k p f same [] = refl
    find-update_where k p f same (x ∷ xs) = ground (arith, same x, find-update_where k p f same xs)

    pub find_by-append :
        (k : ℕ) (xs ys : List A)
        → find_by k (xs ++ ys) ≡ (elim (find_by k xs) [ none ↦ find_by k ys | some a ↦ some a ])
    find_by-append k [] ys = refl
    find_by-append k (x ∷ xs) ys = ground (arith, find_by-append k xs ys)
