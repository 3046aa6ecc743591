-- ===== src/Base/Rows.antt =====
-- Some rows pass a test, and all that pass it are good. `Held` is how a revoked or a used token
-- stands in its table.
use mathlib.Core.Path.{◌≡◌, refl, ◌∙◌}
use mathlib.Core.Bool.{Bool, true, false, not, ◌&&◌, ◌||◌}
use mathlib.Core.Logic.{inl, inr}
use mathlib.Core.Option
use mathlib.Core.Option.{Option, none, some}
use mathlib.Core.List.{List, [], ◌∷◌, ◌++◌}
use native.Mathlib.Omega.{arith}
use rustpress_plugin_authpro.Base.Tests.{if◌then◌else◌, Bool-cases}
use rustpress_plugin_authpro.Base.Tables.{find_where, any, update_where}

module _ {ℓ} {A : Type ℓ} where
  pub any-append_left : (p : A → Bool) (xs ys : List A) → any p xs ≡ true → any p (xs ++ ys) ≡ true
  any-append_left p [] ys h = cc
  any-append_left p (x ∷ xs) ys h = ground (arith, any-append_left p xs ys)

  pub any-append : (p : A → Bool) (xs ys : List A) → any p (xs ++ ys) ≡ (any p xs || any p ys)
  any-append p [] ys = refl
  any-append p (x ∷ xs) ys = ground (arith, any-append p xs ys)

  pub any-false :
      (p q : A → Bool)
      → ((a : A) → q a ≡ true → p a ≡ true)
      → (xs : List A) → any p xs ≡ false
      → any q xs ≡ false
  any-false p q weaker [] h = refl
  any-false p q weaker (x ∷ xs) h = ground (arith, weaker x, any-false p q weaker xs)

  -- A search whose test implies one that nothing passes finds nothing.
  pub find_where-none :
      (p q : A → Bool)
      → ((a : A) → q a ≡ true → p a ≡ true)
      → (xs : List A) → any p xs ≡ false
      → find_where q xs ≡ none
  find_where-none p q weaker [] h = refl
  find_where-none p q weaker (x ∷ xs) h = ground (arith, weaker x, find_where-none p q weaker xs)

  -- The row at the end is found, if no row before it passes the test.
  pub find_where-last :
      (p : A → Bool) (xs : List A) (a : A)
      → find_where p xs ≡ none
      → p a ≡ true
      → find_where p (xs ++ a ∷ []) ≡ some a
  find_where-last p [] a missed hit = ground arith
  find_where-last p (x ∷ xs) a missed hit = ground (arith, find_where-last p xs a)

  pub any-of_find_where :
      (p : A → Bool) (xs : List A) (a : A) → find_where p xs ≡ some a → any p xs ≡ true
  any-of_find_where p [] a h = cc
  any-of_find_where p (x ∷ xs) a h = ground (arith, any-of_find_where p xs a)

  module _ (test good : A → Bool) where
    abbrev pub Held : List A → Type 0
    Held xs = (any test xs ≡ true) × (any (λ a. test a && not (good a)) xs ≡ false)

    module _ (p : A → Bool) (f : A → A) (same : (a : A) → test (f a) ≡ test a) where
      pub any-update : (xs : List A) → any test (update_where p f xs) ≡ any test xs
      any-update [] = refl
      any-update (x ∷ xs) = ground (arith, same x, any-update xs)

      -- An update that keeps good rows good keeps what is held.
      pub Held-update :
          ((a : A) → good a ≡ true → good (f a) ≡ true)
          → (xs : List A) → Held xs
          → Held (update_where p f xs)
      Held-update keep xs h = (any-update xs ∙ h.0, none_bad xs h.1)
        where
          none_bad :
              (xs : List A)
              → any (λ a. test a && not (good a)) xs ≡ false
              → any (λ a. test a && not (good a)) (update_where p f xs) ≡ false
          none_bad [] h = refl
          none_bad (x ∷ xs) h = ground (arith, same x, keep x, none_bad xs)

      -- An update of all the tested rows that makes them good.
      pub Held-made :
          ((a : A) → test a ≡ true → good (if p a then f a else a) ≡ true)
          → (xs : List A) → any test xs ≡ true
          → Held (update_where p f xs)
      Held-made made xs h = (any-update xs ∙ h, none_bad xs)
        where
          none_bad : (xs : List A) → any (λ a. test a && not (good a)) (update_where p f xs) ≡ false
          none_bad [] = refl
          none_bad (x ∷ xs) = ground (arith, same x, made x, none_bad xs)

    -- A new row that fails the test.
    pub Held-append : (xs : List A) (a : A) → test a ≡ false → Held xs → Held (xs ++ a ∷ [])
    Held-append xs a fresh h =
        ground
          (arith, any-append test xs (a ∷ []), any-append (λ a. test a && not (good a)) xs (a ∷ []))

  -- A search whose test an update leaves alone finds the updated row.
  pub find_where-update :
      (q p : A → Bool) (f : A → A)
      → ((a : A) → q (f a) ≡ q a)
      → (xs : List A)
      → find_where q (update_where p f xs)
        ≡ Option.map (λ a. if p a then f a else a) (find_where q xs)
  find_where-update q p f same [] = refl
  find_where-update q p f same (x ∷ xs) = ground (arith, same x, find_where-update q p f same xs)

  pub any-update_false :
      (q p : A → Bool) (f : A → A)
      → ((a : A) → q (if p a then f a else a) ≡ false)
      → (xs : List A) → any q (update_where p f xs) ≡ false
  any-update_false q p f never [] = refl
  any-update_false q p f never (x ∷ xs) = ground (arith, never x, any-update_false q p f never xs)

  -- Where the tested rows are good, a search that implies the test finds a good row.
  pub find_where-Held :
      (test good q : A → Bool)
      → ((a : A) → q a ≡ true → test a ≡ true)
      → (xs : List A) (a : A) → Held test good xs
      → find_where q xs ≡ some a
      → good a ≡ true
  find_where-Held test good q implies [] a h e = cc
  find_where-Held test good q implies (x ∷ xs) a h e = elim (Bool-cases (q x)) [
    | inl hit ↦ ground (arith, implies x hit)
    | inr miss ↦ not-bad xs a (ground arith) (ground arith)
  ]
    where
      not-bad :
          (xs : List A) (a : A)
          → any (λ a. test a && not (good a)) xs ≡ false
          → find_where q xs ≡ some a
          → good a ≡ true
      not-bad [] a h e = cc
      not-bad (x ∷ xs) a h e = ground (arith, implies x, not-bad xs a)
