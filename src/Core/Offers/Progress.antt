-- ===== src/Core/Offers/Progress.antt =====
-- The statuses of an offer, in services/core-api/src/routes/offers.ts.
use push_be.Prelude.{
  ℕ, ◌≡◌, refl, subst, Bool, true, false, not, Option, none, some, List, [], ◌∷◌, arith, eqb,
  eqb_iff, if◌then◌else◌, Bool-cases, inl, inr,
}
use push_be.Core.Offers.{
  Status, sent, read, accepted, declined, Offer, Db, is_open, is_sent, is_accepted, find, update,
}

-- What may become of a status: a decision is final.
abbrev pub moves : Status → Status → Bool
moves sent b = true
moves read b = not (is_sent b)
moves accepted b = is_accepted b
moves declined declined = true
moves declined _ = false

moves_trans : (a b c : Status) → moves a b ≡ true → moves b c ≡ true → moves a c ≡ true
moves_trans a b c h k = ground arith

abbrev status_of : Option Offer → Option Status
status_of none = none
status_of (some o) = some o.status

abbrev pub status_at : ℕ → Db → Option Status
status_at id db = status_of (find id db.offers)

-- An offer stays, and its status moves on.
abbrev pub later : Option Status → Option Status → Bool
later none b = true
later (some a) none = false
later (some a) (some b) = moves a b

pub later_refl : (a : Option Status) → later a a ≡ true
later_refl none = refl
later_refl (some sent) = refl
later_refl (some read) = refl
later_refl (some accepted) = refl
later_refl (some declined) = refl

pub later_trans : (a b c : Option Status) → later a b ≡ true → later b c ≡ true → later a c ≡ true
later_trans none b c h k = refl
later_trans (some a) none c h k = cc
later_trans (some a) (some b) none h k = cc
later_trans (some a) (some b) (some c) h k = moves_trans a b c h k

abbrev changed : (Status → Bool) → (Offer → Offer) → Option Offer → Option Offer
changed allowed change none = none
changed allowed change (some o) = some (if allowed o.status then change o else o)

module _ (id : ℕ) (allowed : Status → Bool) (change : Offer → Offer)
    (h : (o : Offer) → (change o).id ≡ o.id) where
  pub find-update :
      (os : List Offer)
      → find id (update id allowed change os) ≡ changed allowed change (find id os)
  unfolding find update
  find-update [] = refl
  find-update (o ∷ os) =
      let others = find-update os in let same = h o in ground (arith, others, same)

  find-update_other :
      (j : ℕ) (os : List Offer)
      → eqb id j ≡ false
      → find j (update id allowed change os) ≡ find j os
  unfolding find update
  find-update_other j [] d = refl
  find-update_other j (o ∷ os) d =
      let others = find-update_other j os d in let same = h o in ground (arith, others, same, d)

  changed-later :
      (x : Option Offer)
      → ((o : Offer) → allowed o.status ≡ true → moves o.status (change o).status ≡ true)
      → later (status_of x) (status_of (changed allowed change x)) ≡ true
  changed-later none m = refl
  changed-later (some o) m = elim (Bool-cases (allowed o.status)) [
    | inl e ↦ rw e (m o e)
    | inr e ↦ rw e (later_refl (some o.status))
  ]

  -- A statement that changes one offer moves every offer on, if its change does.
  pub status_at-update :
      (j : ℕ) (os : List Offer)
      → ((o : Offer) → allowed o.status ≡ true → moves o.status (change o).status ≡ true)
      → later (status_of (find j os)) (status_of (find j (update id allowed change os))) ≡ true
  status_at-update j os m = elim (Bool-cases (eqb id j)) [
    | inl e ↦
        let same : id ≡ j = ground (arith, eqb_iff id j) in
        subst
          (λ k.
            later (status_of (find k os)) (status_of (find k (update id allowed change os))) ≡ true)
          same (rw (find-update os) (changed-later (find id os) m))
    | inr e ↦ rw (find-update_other j os e) (later_refl (status_of (find j os)))
  ]

-- The other requests move an offer on.
abbrev pub MovesOn : ℕ → (Db → Db) → Type 0
MovesOn j meanwhile = (d : Db) → later (status_at j d) (status_at j (meanwhile d)) ≡ true

pub open_moves : (a b : Status) → is_open a ≡ true → is_open b ≡ false → moves a b ≡ true
open_moves a b h k = ground arith
