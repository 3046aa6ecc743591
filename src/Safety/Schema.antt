-- ===== src/Safety/Schema.antt =====
-- The keys of the four tables (lib.rs): what PRIMARY KEY, UNIQUE and REFERENCES demand of the rows.
pub mod References
use rustpress_plugin_authpro.Base.{
  ◌≡◌, refl, ◌∙◌, String, str_eq, Bool, true, false, ◌||◌, List, [], ◌∷◌, arith, any, update_where,
  ◌==◌, no_two, eq_iff, Bool-cases, inl, inr, no_two-update, no_two-append,
}
use rustpress_plugin_authpro.Models.{Uuid, User, RefreshToken, OneTimeToken}
use rustpress_plugin_authpro.Config.{AuthConfig}
use rustpress_plugin_authpro.Externals.{Externals}
use rustpress_plugin_authpro.Db.{Db}
use rustpress_plugin_authpro.Db.Users.{new_user, count_failure, logged_in, with_password, verified}
use rustpress_plugin_authpro.Db.RefreshTokens.{new_token, revoked_now, is_live_of}
use rustpress_plugin_authpro.Db.OneTimeTokens.{
  password_reset, email_verification, new_one_time, used_now, is_unused_of,
}
use rustpress_plugin_authpro.Exec.{World}
use rustpress_plugin_authpro.Service.Calls.{Call, run}
use rustpress_plugin_authpro.Service.Calls.Statements.{Moves}
use rustpress_plugin_authpro.Service.Calls.Respects.{run-Moves}
use rustpress_plugin_authpro.Service.Calls.Tables.{UsersKeep, users-StatementsKeep}
use rustpress_plugin_authpro.Service.Calls.TokenTables.{
  RefreshKeep, refresh-StatementsKeep, OneTimeKeep, one_time-StatementsKeep,
}
use References.{HasOwners, owners-keep}

-- The same identifier, or the same text in the column that is UNIQUE.
abbrev clash : Uuid → String → Uuid → String → Bool
clash i s j t = i == j || str_eq s t

str_eq_comm : (s t : String) → str_eq s t ≡ str_eq t s
str_eq_comm s t = elim (Bool-cases (str_eq s t)) [
  | inl hit ↦ let e : s ≡ t = (eq_iff s t).0 hit in rw e refl
  | inr miss ↦ elim (Bool-cases (str_eq t s)) [
    | inl hit ↦ let e : t ≡ s = (eq_iff t s).0 hit in rw e refl
    | inr missed ↦ cc (miss, missed)
  ]
]

clash_comm : (i : Uuid) (s : String) (j : Uuid) (t : String) → clash i s j t ≡ clash j t i s
clash_comm i s j t = ground (arith, str_eq_comm s t)

module _ {A : Type 0} (key : A → Uuid) (text : A → String) where
  no_clash :
      (i : Uuid) (s : String) (xs : List A)
      → any (λ x. key x == i) xs ≡ false
      → any (λ x. str_eq (text x) s) xs ≡ false
      → any (λ x. clash (key x) (text x) i s) xs ≡ false
  no_clash i s [] h k = refl
  no_clash i s (x ∷ xs) h k = ground (arith, no_clash i s xs)

abbrev users_clash : User → User → Bool
users_clash u v = clash u.id u.email v.id v.email

abbrev refresh_clash : RefreshToken → RefreshToken → Bool
refresh_clash t s = clash t.id t.token_hash s.id s.token_hash

abbrev one_time_clash : OneTimeToken → OneTimeToken → Bool
one_time_clash t s = clash t.id t.token_hash s.id s.token_hash

pub record ObeysKeys (d : Db) : Type 0 where
  pub users_unique : no_two users_clash d.users ≡ true
  pub refresh_unique : no_two refresh_clash d.refresh_tokens ≡ true
  pub resets_unique : no_two one_time_clash d.password_reset_tokens ≡ true
  pub verifications_unique : no_two one_time_clash d.email_verification_tokens ≡ true
  pub owners : HasOwners d

module _ (x : Externals) (c : AuthConfig) where
  users_unique-keep :
      UsersKeep (λ us vs. no_two users_clash us ≡ true → no_two users_clash vs ≡ true) x c
  unfolding count_failure
  users_unique-keep = record {
    same = λ us h. h;
    next = λ us vs ws f g h. g (f h);
    inserts = λ us id email hash name now _ id_new email_new.
        no_two-append users_clash (λ u v. clash_comm u.id u.email v.id v.email) us
          (new_user id email hash name now)
          (no_clash (λ u. u.id) (λ u. u.email) id email us id_new email_new);
    fails = λ us id now _ h. updated (λ u. u.id == id) _ (λ u. refl) (λ u. refl) us h;
    succeeds =
        λ us id ip now h. updated (λ u. u.id == id) (logged_in ip now) (λ u. refl) (λ u. refl) us h;
    changes_password = λ us id hash now _ h.
        updated (λ u. u.id == id) (with_password hash now) (λ u. refl) (λ u. refl) us h;
    verifies = λ us id now h. updated (λ u. u.id == id) (verified now) (λ u. refl) (λ u. refl) us h;
  }
    where
      updated :
          (p : User → Bool) (f : User → User)
          → ((u : User) → (f u).id ≡ u.id)
          → ((u : User) → (f u).email ≡ u.email)
          → (us : List User) → no_two users_clash us ≡ true
          → no_two users_clash (update_where p f us) ≡ true
      updated p f i e us h =
          no_two-update users_clash p f (λ u v. rw (i u, e u) refl) (λ u v. rw (i u, e u) refl) us
          ∙ h

refresh_unique-keep :
    RefreshKeep (λ ts ss. no_two refresh_clash ts ≡ true → no_two refresh_clash ss ≡ true)
refresh_unique-keep = record {
  same = λ ts h. h;
  next = λ ts us vs f g h. g (f h);
  inserts = λ ts id user hash expires ip agent now id_new hash_new.
      no_two-append refresh_clash (λ t s. clash_comm t.id t.token_hash s.id s.token_hash) ts
        (new_token id user hash expires ip agent now)
        (no_clash (λ t. t.id) (λ t. t.token_hash) id hash ts id_new hash_new);
  revokes = λ ts id now h.
      no_two-update refresh_clash (λ t. t.id == id) (revoked_now now) (λ t s. refl) (λ t s. refl) ts
      ∙ h;
  revokes_user = λ ts user now h.
      no_two-update refresh_clash (is_live_of user) (revoked_now now) (λ t s. refl) (λ t s. refl) ts
      ∙ h;
}

one_time_unique-keep :
    OneTimeKeep (λ ts ss. no_two one_time_clash ts ≡ true → no_two one_time_clash ss ≡ true)
one_time_unique-keep = record {
  same = λ ts h. h;
  next = λ ts us vs f g h. g (f h);
  inserts = λ ts id user hash expires now id_new hash_new.
      no_two-append one_time_clash (λ t s. clash_comm t.id t.token_hash s.id s.token_hash) ts
        (new_one_time id user hash expires now)
        (no_clash (λ t. t.id) (λ t. t.token_hash) id hash ts id_new hash_new);
  supersedes = λ ts user now h.
      no_two-update one_time_clash (is_unused_of user) (used_now now) (λ t s. refl) (λ t s. refl) ts
      ∙ h;
  uses = λ ts id now h.
      no_two-update one_time_clash (λ t. t.id == id) (used_now now) (λ t s. refl) (λ t s. refl) ts
      ∙ h;
}

module _ (x : Externals) (c : AuthConfig) where
  pub Moves-ObeysKeys : (d d' : Db) → Moves x c d d' → ObeysKeys d → ObeysKeys d'
  Moves-ObeysKeys d d' m h = record {
    users_unique = m _ (users-StatementsKeep _ x c (users_unique-keep x c)) h.users_unique;
    refresh_unique = m _ (refresh-StatementsKeep _ x c refresh_unique-keep) h.refresh_unique;
    resets_unique =
        m _ (one_time-StatementsKeep _ password_reset x c one_time_unique-keep) h.resets_unique;
    verifications_unique =
        m _ (one_time-StatementsKeep _ email_verification x c one_time_unique-keep)
          h.verifications_unique;
    owners = m _ (owners-keep x c) h.owners;
  }

  -- Whatever calls of the service are made, the tables keep their keys: no two users with the same
  -- identifier or email, no two tokens of one table with the same identifier or hash, and no token
  -- without its user.
  ObeysKeys-run : (calls : List Call) (w : World) → ObeysKeys w.db → ObeysKeys (run x c calls w).db
  ObeysKeys-run calls w h = Moves-ObeysKeys w.db (run x c calls w).db (run-Moves x c calls w) h
