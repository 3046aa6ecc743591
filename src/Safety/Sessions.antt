-- ===== src/Safety/Sessions.antt =====
-- An abstract store of sessions. It knows of each identifier whether a session was opened under it,
-- whose it is, and whether it has ended, and nothing of rows, hashes or clocks.
pub mod Rows
use rustpress_plugin_authpro.Base.{
  ◌≡◌, refl, subst, Bool, true, false, arith, ◌==◌, if◌then◌else◌, inl, inr, ◌⊎◌,
}
use rustpress_plugin_authpro.Models.{Uuid}

pub data Session : Type 0 where
  absent : Session
  live ended : Uuid → Session

abbrev pub Store : Type 0
Store = Uuid → Session

abbrev pub end : Session → Session
end absent = absent
end (live user) = ended user
end (ended user) = ended user

abbrev pub end_of : Uuid → Session → Session
end_of user absent = absent
end_of user (live u) = if u == user then ended u else live u
end_of user (ended u) = ended u

-- A session is opened under an identifier that is free, or ended, or all of a user's are ended.
pub data Step (s t : Store) : Type 0 where
  opens :
      (id user : Uuid)
      → s id ≡ absent
      → ((j : Uuid) → t j ≡ (if id == j then live user else s j))
      → Step s t
  ends : (id : Uuid) → ((j : Uuid) → t j ≡ (if id == j then end (s j) else s j)) → Step s t
  ends_all : (user : Uuid) → ((j : Uuid) → t j ≡ end_of user (s j)) → Step s t

pub data Steps (s : Store) : Store → Type 0 where
  stay : Steps s s
  later : {t u : Store} → Steps s t → Step t u → Steps s u

pub Steps-trans : {s t u : Store} → Steps s t → Steps t u → Steps s u
Steps-trans p stay = p
Steps-trans p (later q r) = later (Steps-trans p q) r

-- What may become of a session in such a store.
abbrev pub Becomes : Session → Session → Type 0
Becomes absent t = Unit {0}
Becomes (live user) t = (t ≡ live user) ⊎ (t ≡ ended user)
Becomes (ended user) t = t ≡ ended user

Becomes-refl : (s : Session) → Becomes s s
Becomes-refl absent = tt
Becomes-refl (live user) = inl refl
Becomes-refl (ended user) = refl

Becomes-trans : (r s t : Session) → Becomes r s → Becomes s t → Becomes r t
Becomes-trans absent s t p q = tt
Becomes-trans (ended user) s t p q = subst (λ s. Becomes s t) p q
Becomes-trans (live user) s t (inl e) q = subst (λ s. Becomes s t) e q
Becomes-trans (live user) s t (inr e) q = inr (subst (λ s. Becomes s t) e q)

opened_here :
    (user : Uuid) (b : Bool) (s : Session)
    → (b ≡ true → s ≡ absent)
    → Becomes s (if b then live user else s)
opened_here user b absent free = tt
opened_here user false (live u) free = inl refl
opened_here user true (live u) free = let taken : live u ≡ absent = free refl in cc
opened_here user false (ended u) free = refl
opened_here user true (ended u) free = let taken : ended u ≡ absent = free refl in cc

ended_here : (b : Bool) (s : Session) → Becomes s (if b then end s else s)
ended_here b absent = tt
ended_here true (live u) = inr refl
ended_here false (live u) = inl refl
ended_here true (ended u) = refl
ended_here false (ended u) = refl

all_ended_here : (user : Uuid) (s : Session) → Becomes s (end_of user s)
all_ended_here user absent = tt
all_ended_here user (ended u) = refl
all_ended_here user (live u) = chosen (u == user)
  where
    chosen : (b : Bool) → Becomes (live u) (if b then ended u else live u)
    chosen true = inr refl
    chosen false = inl refl

Becomes-Step : {s t : Store} → Step s t → (j : Uuid) → Becomes (s j) (t j)
Becomes-Step {s} (opens id user free at) j =
    rw (at j)
      (opened_here user (id == j) (s j) (λ hit. let e : id ≡ j = ground arith in rw (← e) free))
Becomes-Step {s} (ends id at) j = rw (at j) (ended_here (id == j) (s j))
Becomes-Step {s} (ends_all user at) j = rw (at j) (all_ended_here user (s j))

pub Becomes-Steps : {s t : Store} → Steps s t → (j : Uuid) → Becomes (s j) (t j)
Becomes-Steps {s} stay j = Becomes-refl (s j)
Becomes-Steps {s} {t} (later {t = u} p q) j =
    Becomes-trans (s j) (u j) (t j) (Becomes-Steps p j) (Becomes-Step q j)
