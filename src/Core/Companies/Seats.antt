-- ===== src/Core/Companies/Seats.antt =====
-- The administrators and the seats of a company: services/core-api/src/routes/companies.ts.
use push_be.Prelude.{
  ℕ, ◌+◌, ◌≤◌, ◌<◌, String, ◌≡◌, ◌∙◌, Bool, true, ◌&&◌, some, arith, eqb, eqb_iff, leb, ltb, any_of,
  All, Bool-cases, Option-cases, inl, inr,
}
use push_be.Core.Companies.{
  Member, Db, seat_limit, invite_ms, is_pending, is_live, is_plain, is_admin_of, count, seats,
  find_first, is_member, Result, require_admin, transfer, remove, insert_invite, write_accept,
}
use push_be.Core.Companies.Counts.{
  count-transfer, count_total-transfer, count-remove-le, count-remove, count-claim,
}

-- The company has one administrator, and its members and live invites have seats.
abbrev pub Seated : (company now : ℕ) → Db → Type 0
Seated c now db = (count (is_admin_of c) db.members ≡ 1) × (seats c now db ≤ seat_limit (db.plan c))

-- The company of the user who asks.
abbrev pub Asks : (user company : ℕ) → Db → Type 0
Asks user c db =
    (m : Member) → find_first (λ n. eqb n.user user) db.members ≡ some m → m.company ≡ c

pub require_admin-Seated :
    (c now user : ℕ) (db : Db) (next : ℕ → Db × Result)
    → Asks user c db
    → Seated c now db
    → Seated c now (next c).0
    → Seated c now (require_admin user db next).0
require_admin-Seated c now user db next asks h k =
    elim (Option-cases (find_first (λ n. eqb n.user user) db.members)) [
      | inl e ↦ rw (require_admin, e) h
      | inr (m, e) ↦ elim (Bool-cases m.is_admin) [
        | inr a ↦ rw (require_admin, e, a) h
        | inl a ↦ let same : m.company ≡ c = asks m e in rw (require_admin, e, a, same) k
      ]
    ]

pub transfer-Seated :
    (c now user : ℕ) (d : Db)
    → count (is_member c user) d.members ≡ 1
    → Seated c now d
    → Seated c now (record d { members = transfer c user d.members })
transfer-Seated c now user d once (one, room) =
    let admins = count-transfer c user d.members in
    let total = count_total-transfer c user d.members in
    (admins ∙ once, omega (arith, admins, once, one, total, room))

pub remove-Seated :
    (c now user : ℕ) (d : Db)
    → count (λ m. is_admin_of c m && is_member c user m) d.members ≡ 0
    → Seated c now d
    → Seated c now (record d { members = remove (is_member c user) d.members })
remove-Seated c now user d plain (one, room) =
    let fewer = count-remove-le (is_plain c) (is_member c user) d.members in
    (
      count-remove (is_admin_of c) (is_member c user) d.members plain ∙ one,
      omega (arith, fewer, room),
    )

pub insert_invite-Seated :
    (limit c id now : ℕ) (email hash : String) (mailed : Bool) (d : Db)
    → limit ≤ seat_limit (d.plan c)
    → Seated c now d
    → Seated c now (insert_invite limit c id now email hash mailed d).0
unfolding count
insert_invite-Seated limit c id now email hash mailed d kept (one, room) =
    elim (Bool-cases (leb limit (seats c now d))) [
      | inl e ↦ rw (insert_invite, e) (one, room)
      | inr e ↦ elim (Bool-cases mailed) [
        | inl k ↦
            let free : seats c now d < limit = ground (arith, e) in
            let live : ltb now (now + invite_ms) ≡ true = ground arith in
            let here : eqb c c ≡ true = ground (arith, eqb_iff c c) in
            rw (insert_invite, e, k) (one, rw (live, here) (omega (arith, free, kept)))
        | inr k ↦
            let fewer = count-remove-le (is_live c now) (λ i. eqb i.id id) d.invites in
            rw (insert_invite, e, k) (one, omega (arith, fewer, room))
      ]
    ]

pub write_accept-Seated :
    (c id user now : ℕ) (d : Db)
    → All (λ i. (i.id ≡ id) → (i.company ≡ c) × (now < i.expires_at)) d.invites
    → Seated c now d
    → Seated c now (write_accept id c user now d).0
unfolding write_accept count
write_accept-Seated c id user now d live (one, room) =
    elim (Bool-cases (any_of (λ i. eqb i.id id && is_pending i) d.invites)) [
      | inr e ↦ rw (write_accept, e) (one, room)
      | inl e ↦ elim (Bool-cases (any_of (λ m. eqb m.user user) d.members)) [
        | inl k ↦ rw (write_accept, e, k) (one, room)
        | inr k ↦
            let claimed = count-claim c id now d.invites e live in
            let here : eqb c c ≡ true = ground (arith, eqb_iff c c) in
            rw (write_accept, e, k) (rw here one, rw here (omega (arith, claimed, room)))
      ]
    ]
