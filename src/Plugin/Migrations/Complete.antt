-- ===== src/Plugin/Migrations/Complete.antt =====
-- When the migrations succeed, and what they leave.
use rustpress_plugin_authpro.Base.{
  ℕ, suc, ◌≡◌, refl, subst, String, true, ◌==◌, ==_refl, Option, none, some, List, [], ◌∷◌, any,
  arith, Bool-cases, inl, inr,
}
use rustpress_plugin_authpro.Error.{ok}
use rustpress_plugin_authpro.Plugin.Migrations.{
  Object, created, user_role, user_status, users, idx_users_email, idx_users_status, refresh_tokens,
  idx_refresh_tokens_user, idx_refresh_tokens_expires, password_reset_tokens,
  email_verification_tokens, number, Schema, has, has_base, create, statements, run_all,
  run_migrations,
}
use rustpress_plugin_authpro.Plugin.Migrations.Compatible.{
  IsCompatible, created-fit, listed, is_based, is_ordered, Covers, has_base-of,
}

abbrev pub Includes : Schema → Schema → Type 0
Includes s t = (o : Object) → has o s ≡ true → has o t ≡ true

-- A statement whose base is there succeeds, and the object is there then.
create_lem :
    (o : Object) (s : Schema)
    → has_base o s ≡ true
    → IsCompatible s
    → (s' : Schema) × (create o s ≡ some s') × Includes s s' × (has o s' ≡ true) × IsCompatible s'
unfolding create
create_lem o s base fit = elim (Bool-cases (has o s)) [
  | inl there ↦ (s, rw there, λ p e. e, there, fit)
  | inr absent ↦ (
    created o ∷ s,
    rw (absent, base),
    λ p e. ground arith,
    ground (arith, ==_refl (number o)),
    rw (created-fit o) fit,
  )
]

has-number :
    (o p : Object) (s : Schema) → (number o == number p) ≡ true → has o s ≡ true → has p s ≡ true
has-number o p s same there =
    let e : number o ≡ number p = ground arith in
    subst (λ k. any (λ q. number q.object == k) s ≡ true) e there

Covers-cons :
    (o : Object) (os : List Object) (s : Schema) → has o s ≡ true → Covers os s → Covers (o ∷ os) s
Covers-cons o os s there h p e = elim (Bool-cases (number o == number p)) [
  | inl same ↦ has-number o p s same there
  | inr other ↦ h p (ground arith)
]

module _ (fault : ℕ → Option String) (healthy : (n : ℕ) → fault n ≡ none) where
  run_all_lem :
      (os before : List Object) (s : Schema) (n : ℕ)
      → is_ordered before os ≡ true
      → IsCompatible s
      → Covers before s
      → (s' : Schema) × (run_all fault n os s ≡ (ok tt, s'))
        × Includes s s'
        × Covers os s'
        × IsCompatible s'
  unfolding run_all
  run_all_lem [] before s n ordered fit covered = (s, refl, λ p e. e, λ p e. cc e, fit)
  run_all_lem (o ∷ os) before s n ordered fit covered =
      let base : is_based o before ≡ true = ground arith in
      let (s1, made, kept, there, fit1) =
        create_lem o s (has_base-of o before s fit covered base) fit in
      let (s2, rest, kept', made', fit2) =
        run_all_lem os (o ∷ before) s1 (suc n) (ground arith) fit1
          (Covers-cons o before s1 there (λ p e. kept p (covered p e))) in
      (
        s2,
        rw (healthy n, made) rest,
        λ p e. kept' p (kept p e),
        Covers-cons o os s2 (kept' o there) made',
        fit2,
      )

  in_statements : (o : Object) → listed o statements ≡ true
  in_statements user_role = refl
  in_statements user_status = refl
  in_statements users = refl
  in_statements idx_users_email = refl
  in_statements idx_users_status = refl
  in_statements refresh_tokens = refl
  in_statements idx_refresh_tokens_user = refl
  in_statements idx_refresh_tokens_expires = refl
  in_statements password_reset_tokens = refl
  in_statements email_verification_tokens = refl

  again :
      (os : List Object) (s : Schema) (n : ℕ)
      → ((o : Object) → has o s ≡ true)
      → run_all fault n os s ≡ (ok tt, s)
  unfolding run_all create
  again [] s n complete = refl
  again (o ∷ os) s n complete = rw (healthy n, complete o) (again os s (suc n) complete)

  pub run_migrations_complete :
      (s : Schema)
      → IsCompatible s
      → (s' : Schema) × (run_migrations fault s ≡ (ok tt, s'))
        × Includes s s'
        × ((o : Object) → has o s' ≡ true)
        × IsCompatible s'
        × (run_migrations fault s' ≡ (ok tt, s'))
  unfolding run_migrations
  run_migrations_complete s fit =
      let (s', done, kept, made, fit') = run_all_lem statements [] s 0 refl fit (λ p e. cc e) in
      (
        s',
        done,
        kept,
        λ o. made o (in_statements o),
        fit',
        again statements s' 0 (λ o. made o (in_statements o)),
      )
