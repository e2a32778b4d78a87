-- ===== src/Core/Applications/Rows.antt =====
-- Rows with a revision, as in services/core-api/src/routes/applications.ts: what a guarded update does
-- to the row that a key finds.
use push_be.Prelude.{
  ℕ, ◌<◌, ◌≡◌, refl, ap, ◌∙◌, ◌⊎◌, inl, inr, false, ◌&&◌, Option, none, some, List, [], ◌∷◌, arith,
  eqb, if◌then◌else◌, Bool-cases,
}
use push_be.Core.Applications.Database.{
  App, Approval, find_app, find_approval, update_app, update_approval,
}

-- A row stays as it is, or has a higher revision; no row goes away.
abbrev pub Follows : {A : Type 0} → (A → ℕ) → Option A → Option A → Type 0
Follows revision none b = Unit
Follows revision (some a) none = ⊥
Follows revision (some a) (some b) = (b ≡ a) ⊎ (revision a < revision b)

pub Follows-refl : {A : Type 0} (r : A → ℕ) (a : Option A) → Follows r a a
Follows-refl r none = tt
Follows-refl r (some a) = inl refl

pub Follows-trans :
    {A : Type 0} (r : A → ℕ) (a b c : Option A) → Follows r a b → Follows r b c → Follows r a c
Follows-trans r none b c h k = tt
Follows-trans r (some a) none c h k = absurd h
Follows-trans r (some a) (some b) none h k = k
Follows-trans r (some a) (some b) (some c) (inl e) (inl f) = inl (f ∙ e)
Follows-trans r (some a) (some b) (some c) (inl e) (inr l) = inr (omega (arith, ap r e))
Follows-trans r (some a) (some b) (some c) (inr l) (inl f) = inr (omega (arith, ap r f))
Follows-trans r (some a) (some b) (some c) (inr l) (inr m) = inr (omega arith)

-- A row that follows at the same revision is the same row.
pub Follows-row :
    {A : Type 0} (r : A → ℕ) (o o' : Option A) (a b : A)
    → o ≡ some a
    → o' ≡ some b
    → Follows r o o'
    → r b ≡ r a
    → b ≡ a
Follows-row r none o' a b h k f s = cc
Follows-row r (some x) none a b h k f s = cc
Follows-row r (some x) (some y) a b h k (inl e) s = cc
Follows-row r (some x) (some y) a b h k (inr l) s =
    let e : x ≡ a = cc in let e' : y ≡ b = cc in absurd (omega (arith, ap r e, ap r e'))

abbrev pub app_revision : App → ℕ
app_revision a = a.revision

abbrev pub approval_revision : Approval → ℕ
approval_revision a = a.revision

abbrev app_changed : ℕ → (App → App) → Option App → Option App
app_changed revision change none = none
app_changed revision change (some a) = some (if eqb a.revision revision then change a else a)

abbrev approval_changed : ℕ → (Approval → Approval) → Option Approval → Option Approval
approval_changed revision change none = none
approval_changed revision change (some a) = some (if eqb a.revision revision then change a else a)

pub find_app-key :
    (user id : ℕ) (rows : List App) (a : App)
    → find_app user id rows ≡ some a
    → (a.id ≡ id) × (a.user ≡ user)
unfolding find_app
find_app-key user id [] a h = cc
find_app-key user id (x ∷ rows) a h = elim (Bool-cases (eqb x.id id && eqb x.user user)) [
  | inl e ↦ ground (arith, e)
  | inr e ↦ find_app-key user id rows a (ground (arith, e))
]

pub find_approval-key :
    (user id : ℕ) (rows : List Approval) (a : Approval)
    → find_approval user id rows ≡ some a
    → (a.id ≡ id) × (a.user ≡ user)
unfolding find_approval
find_approval-key user id [] a h = cc
find_approval-key user id (x ∷ rows) a h = elim (Bool-cases (eqb x.id id && eqb x.user user)) [
  | inl e ↦ ground (arith, e)
  | inr e ↦ find_approval-key user id rows a (ground (arith, e))
]

module _ (user id revision : ℕ) (change : App → App)
    (keeps : (a : App) → ((change a).id ≡ a.id) × ((change a).user ≡ a.user)) where
  pub find_app-update_app :
      (rows : List App)
      → find_app user id (update_app user id revision change rows)
        ≡ app_changed revision change (find_app user id rows)
  unfolding find_app update_app
  find_app-update_app [] = refl
  find_app-update_app (a ∷ rows) =
      let others = find_app-update_app rows in let same = keeps a in ground (arith, others, same)

  pub find_app-update_other :
      (u j : ℕ) (rows : List App)
      → (eqb id j && eqb user u) ≡ false
      → find_app u j (update_app user id revision change rows) ≡ find_app u j rows
  unfolding find_app update_app
  find_app-update_other u j [] d = refl
  find_app-update_other u j (a ∷ rows) d =
      let others = find_app-update_other u j rows d in
      let same = keeps a in ground (arith, others, same, d)

  pub update_app-Follows :
      (u j : ℕ) (rows : List App)
      → ((a : App) → a.revision < (change a).revision)
      → Follows app_revision
          (find_app u j rows)
          (find_app u j (update_app user id revision change rows))
  update_app-Follows u j rows up = elim (Bool-cases (eqb id j && eqb user u)) [
    | inr e ↦ rw (find_app-update_other u j rows e) (Follows-refl app_revision (find_app u j rows))
    | inl e ↦
        let same_id : id ≡ j = ground (arith, e) in
        let same_user : user ≡ u = ground (arith, e) in
        rw (← same_id, ← same_user, find_app-update_app rows)
          (changed_follows (find_app user id rows) up)
  ]
    where
      changed_follows :
          (o : Option App)
          → ((a : App) → a.revision < (change a).revision)
          → Follows app_revision o (app_changed revision change o)
      changed_follows none up = tt
      changed_follows (some a) up = elim (Bool-cases (eqb a.revision revision)) [
        | inl e ↦ rw e (inr (up a))
        | inr e ↦ rw e (inl refl)
      ]

module _ (user id revision : ℕ) (change : Approval → Approval)
    (keeps : (a : Approval) → ((change a).id ≡ a.id) × ((change a).user ≡ a.user)) where
  pub find_approval-update_approval :
      (rows : List Approval)
      → find_approval user id (update_approval user id revision change rows)
        ≡ approval_changed revision change (find_approval user id rows)
  unfolding find_approval update_approval
  find_approval-update_approval [] = refl
  find_approval-update_approval (a ∷ rows) =
      let others = find_approval-update_approval rows in
      let same = keeps a in ground (arith, others, same)

  pub find_approval-update_other :
      (u j : ℕ) (rows : List Approval)
      → (eqb id j && eqb user u) ≡ false
      → find_approval u j (update_approval user id revision change rows) ≡ find_approval u j rows
  unfolding find_approval update_approval
  find_approval-update_other u j [] d = refl
  find_approval-update_other u j (a ∷ rows) d =
      let others = find_approval-update_other u j rows d in
      let same = keeps a in ground (arith, others, same, d)
