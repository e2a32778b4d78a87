-- ===== src/Core/Jobs/Credits/Grants.antt =====
-- The monthly grant of services/core-api/src/billing/credits.ts.
use push_be.Prelude.{
  ℕ, ◌<◌, String, eq_refl, ◌≡◌, refl, true, false, some, List, [], ◌∷◌, ◌++◌, arith, leb, leb→le,
  eqb_iff, any_of, All, Bool-cases, Option-cases, inl, inr,
}
use push_be.Prelude.Int.{ℤ, pos, ◌+ℤ◌, int_laws}
use push_be.Core.Jobs.Config.{Audience}
use push_be.Core.Jobs.Database.{
  Entry, Db, Owner, of_user, of_company, newest, is_entry_of, balance_of,
}
use push_be.Core.Jobs.Credits.{
  settled_micro, reserved_micro, available_micro, grant_micro, owner_in, plan_or_free, granted_for,
  grant_entry, ensure_monthly_grant,
}

-- All the entries are older than the moment.
abbrev pub Before : ℕ → List Entry → Type 0
Before now ledger = All (λ e. e.created < now) ledger

newest-Before :
    (o : Owner) (now : ℕ) (ledger : List Entry) (f : Entry)
    → Before now ledger
    → newest o ledger ≡ some f
    → f.created < now
unfolding newest
newest-Before o now [] f h e = cc
newest-Before o now (x ∷ es) f (p, h) e = elim (Option-cases (newest o es)) [
  | inl q ↦ ground arith
  | inr (g, q) ↦ let older = newest-Before o now es g h q in ground arith
]

-- An entry at a later moment than all others is the newest.
newest-cons :
    (o : Owner) (e : Entry) (ledger : List Entry)
    → is_entry_of o e ≡ true
    → Before e.created ledger
    → newest o (e ∷ ledger) ≡ some e
unfolding newest
newest-cons o e ledger mine h = elim (Option-cases (newest o ledger)) [
  | inl q ↦ ground arith
  | inr (g, q) ↦ let older = newest-Before o e.created ledger g h q in ground arith
]

grant_entry-mine :
    (o : Owner) (id amount : ℕ) (reference : String) (now : ℕ) (ledger : List Entry)
    → (is_entry_of o (grant_entry o id amount reference now ledger) ≡ true)
      × (granted_for o reference (grant_entry o id amount reference now ledger) ≡ true)
grant_entry-mine (of_user u) id amount reference now ledger =
    ground (arith, eqb_iff u u, eq_refl reference)
grant_entry-mine (of_company c) id amount reference now ledger =
    ground (arith, eqb_iff c c, eq_refl reference)

any_of-append :
    (o : Owner) (reference : String) (es ledger : List Entry)
    → any_of (granted_for o reference) ledger ≡ true
    → any_of (granted_for o reference) (es ++ ledger) ≡ true
any_of-append o reference [] ledger h = h
any_of-append o reference (e ∷ es) ledger h =
    let later = any_of-append o reference es ledger h in ground (arith, later)

-- A grant that is more than nothing leaves its entry for the month.
ensure_monthly_grant-granted :
    (audience : Audience) (plan : String) (owner id : ℕ) (reference : String) (now : ℕ) (db : Db)
    → 0 < grant_micro audience (plan_or_free audience plan)
    → any_of
        (granted_for (owner_in audience owner) reference)
        (ensure_monthly_grant audience plan owner id reference now db).ledger
      ≡ true
unfolding ensure_monthly_grant
ensure_monthly_grant-granted audience plan owner id reference now db h =
    let o = owner_in audience owner in
    let amount = grant_micro audience (plan_or_free audience plan) in
    let mine = grant_entry-mine o id amount reference now db.ledger in
    elim (Bool-cases (any_of (granted_for o reference) db.ledger)) [
      | inl g ↦ ground (arith, g, h)
      | inr g ↦ ground (arith, g, h, mine)
    ]

-- Where the plan of the owner grants something, the month's grant is written once: asking for it again at
-- any later time, also on another plan, changes nothing, whatever entries were added since.
pub ensure_monthly_grant_idempotent :
    (audience : Audience) (plan plan' : String) (owner id id' : ℕ) (reference : String)
    (now now' : ℕ) (db d : Db) (es : List Entry)
    → 0 < grant_micro audience (plan_or_free audience plan)
    → d.ledger ≡ es ++ (ensure_monthly_grant audience plan owner id reference now db).ledger
    → ensure_monthly_grant audience plan' owner id' reference now' d ≡ d
unfolding ensure_monthly_grant
ensure_monthly_grant_idempotent audience plan plan' owner id id' reference now now' db d es
      some_grant since =
    let o = owner_in audience owner in
    let first = ensure_monthly_grant-granted audience plan owner id reference now db some_grant in
    let kept : any_of (granted_for o reference) d.ledger ≡ true =
      rw since (any_of-append o reference es _ first) in
    elim (Bool-cases (leb (grant_micro audience (plan_or_free audience plan')) 0)) [
      | inl e ↦ ground arith
      | inr e ↦ ground (arith, kept)
    ]

-- An entry that is the newest, with a balance that is higher by an amount.
available_micro-cons :
    (o : Owner) (entry : Entry) (amount : ℕ) (db : Db)
    → newest o (entry ∷ db.ledger) ≡ some entry
    → entry.balance ≡ balance_of (newest o db.ledger) +ℤ pos amount
    → available_micro (record db { ledger = entry ∷ db.ledger }) o
      ≡ available_micro db o +ℤ pos amount
unfolding available_micro settled_micro reserved_micro
available_micro-cons o entry amount db newer higher = rw (newer, higher) (omega int_laws)

+ℤ-zero : (a : ℤ) (n : ℕ) → leb n 0 ≡ true → a +ℤ pos n ≡ a
+ℤ-zero a n e = omega (int_laws, leb→le n 0 e)

-- The first grant of a month makes its amount available, if no entry of the ledger is as new.
pub available_micro-ensure_monthly_grant :
    (audience : Audience) (plan : String) (owner id : ℕ) (reference : String) (now : ℕ) (db : Db)
    → Before now db.ledger
    → any_of (granted_for (owner_in audience owner) reference) db.ledger ≡ false
    → available_micro
        (ensure_monthly_grant audience plan owner id reference now db)
        (owner_in audience owner)
      ≡ available_micro db (owner_in audience owner)
        +ℤ pos (grant_micro audience (plan_or_free audience plan))
unfolding ensure_monthly_grant
available_micro-ensure_monthly_grant audience plan owner id reference now db h g =
    let o = owner_in audience owner in
    let amount = grant_micro audience (plan_or_free audience plan) in
    let entry = grant_entry o id amount reference now db.ledger in
    let mine = (grant_entry-mine o id amount reference now db.ledger).0 in
    let newer = newest-cons o entry db.ledger mine h in
    let added = available_micro-cons o entry amount db newer refl in
    elim (Bool-cases (leb amount 0)) [
      | inl e ↦ let same = +ℤ-zero (available_micro db o) amount e in ground (arith, same)
      | inr e ↦ ground (arith, added)
    ]
