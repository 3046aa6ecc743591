-- ===== src/Plugin/Migrations/Compatible.antt =====
-- The schemas on which each statement of the migrations finds what it needs.
use rustpress_plugin_authpro.Base.{
  ◌≡◌, refl, Bool, true, false, not, ◌&&◌, ◌||◌, ◌==◌, List, [], ◌∷◌, any, arith,
}
use rustpress_plugin_authpro.Plugin.Migrations.{
  Object, Entry, created, is_of, has_column, has_key, offers, user_role, user_status, users,
  idx_users_email, idx_users_status, refresh_tokens, idx_refresh_tokens_user,
  idx_refresh_tokens_expires, password_reset_tokens, email_verification_tokens, number, Schema, has,
  has_base,
}

-- The tables of the plugin's names, if they are there, have what the indexes and the foreign keys
-- need.
abbrev pub is_fit : Entry → Bool
is_fit e =
    (not (is_of users e) || (has_key "id" e && has_column "email" e && has_column "status" e))
    && (not (is_of refresh_tokens e) || (has_column "user_id" e && has_column "expires_at" e))

abbrev pub IsCompatible : Schema → Type 0
IsCompatible s = any (λ e. not (is_fit e)) s ≡ false

pub created-fit : (o : Object) → is_fit (created o) ≡ true
created-fit user_role = refl
created-fit user_status = refl
created-fit users = refl
created-fit idx_users_email = refl
created-fit idx_users_status = refl
created-fit refresh_tokens = refl
created-fit idx_refresh_tokens_user = refl
created-fit idx_refresh_tokens_expires = refl
created-fit password_reset_tokens = refl
created-fit email_verification_tokens = refl

-- The object is among these.
abbrev pub listed : Object → List Object → Bool
listed o os = any (λ p. number p == number o) os

abbrev pub is_based : Object → List Object → Bool
is_based user_role os = true
is_based user_status os = true
is_based users os = listed user_role os && listed user_status os
is_based idx_users_email os = listed users os
is_based idx_users_status os = listed users os
is_based refresh_tokens os = listed users os
is_based idx_refresh_tokens_user os = listed refresh_tokens os
is_based idx_refresh_tokens_expires os = listed refresh_tokens os
is_based password_reset_tokens os = listed users os
is_based email_verification_tokens os = listed users os

-- What each object stands on is among those before it.
abbrev pub is_ordered : List Object → List Object → Bool
is_ordered before [] = true
is_ordered before (o ∷ os) = is_based o before && is_ordered (o ∷ before) os

-- Those listed are there.
abbrev pub Covers : List Object → Schema → Type 0
Covers os s = (o : Object) → listed o os ≡ true → has o s ≡ true

and_left : (p q : Bool) → (p && q) ≡ true → p ≡ true
and_left p q e = ground arith

and_right : (p q : Bool) → (p && q) ≡ true → q ≡ true
and_right p q e = ground arith

implied : (p q : Bool) → p ≡ true → (not p || q) ≡ true → q ≡ true
implied p q h e = ground arith

-- What is there and fit passes each test that fitness implies.
any-offered :
    {A : Type 0} (p fit test : A → Bool)
    → ((a : A) → p a ≡ true → fit a ≡ true → test a ≡ true)
    → (xs : List A) → any (λ a. not (fit a)) xs ≡ false
    → any p xs ≡ true
    → any (λ a. p a && test a) xs ≡ true
any-offered p fit test h [] compatible there = cc there
any-offered p fit test h (a ∷ xs) compatible there =
    ground (arith, h a, any-offered p fit test h xs)

offered :
    (o : Object) (test : Entry → Bool)
    → ((e : Entry) → is_of o e ≡ true → is_fit e ≡ true → test e ≡ true)
    → (s : Schema) → IsCompatible s
    → has o s ≡ true
    → offers o test s ≡ true
offered o test fits s = any-offered (is_of o) is_fit test fits s

fit_users :
    (e : Entry)
    → is_of users e ≡ true
    → is_fit e ≡ true
    → (has_key "id" e && has_column "email" e && has_column "status" e) ≡ true
fit_users e of fit = implied (is_of users e) _ of (and_left _ _ fit)

fit_refresh :
    (e : Entry)
    → is_of refresh_tokens e ≡ true
    → is_fit e ≡ true
    → (has_column "user_id" e && has_column "expires_at" e) ≡ true
fit_refresh e of fit = implied (is_of refresh_tokens e) _ of (and_right _ _ fit)

-- What an object stands on is there, and has what it takes, where it is listed.
pub has_base-of :
    (o : Object) (os : List Object) (s : Schema)
    → IsCompatible s
    → Covers os s
    → is_based o os ≡ true
    → has_base o s ≡ true
has_base-of user_role os s fit h e = refl
has_base-of user_status os s fit h e = refl
has_base-of users os s fit h e = ground (arith, h user_role, h user_status)
has_base-of idx_users_email os s fit h e =
    offered users (has_column "email") (λ e of f. and_right _ _ (and_left _ _ (fit_users e of f))) s
      fit (h users e)
has_base-of idx_users_status os s fit h e =
    offered users (has_column "status") (λ e of f. and_right _ _ (fit_users e of f)) s fit
      (h users e)
has_base-of refresh_tokens os s fit h e =
    offered users (has_key "id") (λ e of f. and_left _ _ (and_left _ _ (fit_users e of f))) s fit
      (h users e)
has_base-of idx_refresh_tokens_user os s fit h e =
    offered refresh_tokens (has_column "user_id") (λ e of f. and_left _ _ (fit_refresh e of f)) s
      fit (h refresh_tokens e)
has_base-of idx_refresh_tokens_expires os s fit h e =
    offered refresh_tokens (has_column "expires_at") (λ e of f. and_right _ _ (fit_refresh e of f))
      s fit (h refresh_tokens e)
has_base-of password_reset_tokens os s fit h e =
    offered users (has_key "id") (λ e of f. and_left _ _ (and_left _ _ (fit_users e of f))) s fit
      (h users e)
has_base-of email_verification_tokens os s fit h e =
    offered users (has_key "id") (λ e of f. and_left _ _ (and_left _ _ (fit_users e of f))) s fit
      (h users e)
