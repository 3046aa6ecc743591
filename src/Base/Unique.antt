-- ===== src/Base/Unique.antt =====
-- The constraints PRIMARY KEY, UNIQUE and FOREIGN KEY on lists of rows, and the updates and inserts
-- that keep them.
use Prim.Native.Nat.{ℕ}
use mathlib.Core.Path.{◌≡◌, refl, ◌∙◌}
use mathlib.Core.Logic.{inl, inr}
use mathlib.Core.Bool.{Bool, true, false, not, ◌&&◌}
use mathlib.Core.List.{List, [], ◌∷◌, ◌++◌}
use native.Mathlib.Omega.{arith}
use rustpress_plugin_authpro.Base.Tests.{◌==◌, if◌then◌else◌, Bool-cases}
use rustpress_plugin_authpro.Base.Tables.{any, update_where}
use rustpress_plugin_authpro.Base.Rows.{any-append, any-update}

module _ {ℓ} {A : Type ℓ} (same : A → A → Bool) where
  -- No two rows are the same in the columns that `same` compares.
  abbrev pub no_two : List A → Bool
  no_two [] = true
  no_two (x ∷ xs) = not (any (λ y. same y x) xs) && no_two xs

  module _ (p : A → Bool) (f : A → A) where
    any-same_update :
        ((x y : A) → same y (f x) ≡ same y x)
        → (x : A) (ys : List A)
        → any (λ y. same y (if p x then f x else x)) ys ≡ any (λ y. same y x) ys
    any-same_update right x [] = refl
    any-same_update right x (y ∷ ys) = ground (arith, right x y, any-same_update right x ys)

    -- An update that leaves those columns alone.
    pub no_two-update :
        ((x y : A) → same (f x) y ≡ same x y)
        → ((x y : A) → same y (f x) ≡ same y x)
        → (xs : List A) → no_two (update_where p f xs) ≡ no_two xs
    no_two-update left right [] = refl
    no_two-update left right (x ∷ xs) = ground (
      arith,
      any-same_update right x (update_where p f xs),
      any-update (λ y. same y x) (λ y. true) p f (λ y. left y x) xs,
      no_two-update left right xs,
    )

  -- An insert of a row that no row is the same as.
  pub no_two-append :
      ((x y : A) → same x y ≡ same y x)
      → (xs : List A) (a : A) → any (λ x. same x a) xs ≡ false
      → no_two xs ≡ true
      → no_two (xs ++ a ∷ []) ≡ true
  no_two-append swap [] a fresh h = refl
  no_two-append swap (x ∷ xs) a fresh h =
      ground (arith, any-append (λ y. same y x) xs (a ∷ []), swap a x, no_two-append swap xs a)

module _ {κ} {B : Type κ} (key : B → ℕ) where
  -- The keys of one table are keys of the other.
  abbrev pub KeepsKeys : List B → List B → Type 0
  KeepsKeys ys zs = (k : ℕ) → any (λ y. key y == k) ys ≡ true → any (λ z. key z == k) zs ≡ true

  pub KeepsKeys-update :
      (p : B → Bool) (f : B → B)
      → ((y : B) → key (f y) ≡ key y)
      → (ys : List B) → KeepsKeys ys (update_where p f ys)
  KeepsKeys-update p f same ys k named =
      any-update (λ y. key y == k) (λ y. true) p f (λ y. rw (same y) refl) ys ∙ named

  pub KeepsKeys-append : (ys : List B) (b : B) → KeepsKeys ys (ys ++ b ∷ [])
  KeepsKeys-append ys b k named = ground (arith, any-append (λ y. key y == k) ys (b ∷ []))

module _ {ℓ κ} {A : Type ℓ} {B : Type κ} (owner : A → ℕ) (key : B → ℕ) where
  -- Each row names one of the other table.
  abbrev pub Refers : List A → List B → Type 0
  Refers xs ys = (k : ℕ) → any (λ x. owner x == k) xs ≡ true → any (λ y. key y == k) ys ≡ true

  pub Refers-update :
      (p : A → Bool) (f : A → A)
      → ((x : A) → owner (f x) ≡ owner x)
      → (xs : List A) (ys : List B) → Refers xs ys
      → Refers (update_where p f xs) ys
  Refers-update p f same xs ys h k named =
      h k (cc (any-update (λ x. owner x == k) (λ x. true) p f (λ x. rw (same x) refl) xs, named))

  pub Refers-append :
      (xs : List A) (a : A) (ys : List B)
      → any (λ y. key y == owner a) ys ≡ true
      → Refers xs ys
      → Refers (xs ++ a ∷ []) ys
  Refers-append xs a ys present h k named = elim (Bool-cases (owner a == k)) [
    | inl hit ↦ let e : owner a ≡ k = ground arith in rw (← e) present
    | inr miss ↦ h k (ground (arith, any-append (λ x. owner x == k) xs (a ∷ [])))
  ]
