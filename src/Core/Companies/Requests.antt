-- ===== src/Core/Companies/Requests.antt =====
-- All the requests on the members and invites of a company: services/core-api/src/routes/companies.ts.
use push_be.Prelude.{
  ℕ, ◌<◌, ◌≤◌, ◌≢◌, List, [], ◌∷◌, none, false, String, ◌==◌, ◌≡◌, Bool, true, ◌&&◌, some, arith,
  leb, All, Bool-cases, Option-cases, inl, inr,
}
use push_be.Core.Companies.{
  Invite, Db, seat_limit, is_pending, is_admin_of, count, seats, find_first, is_member, Result,
  transfer_admin, remove_member, is_pending_for, invite, accept_error, accept_invite,
}
use push_be.Core.Companies.Counts.{count-renew-le, is_admin_as, plain-count}
use push_be.Core.Companies.Seats.{
  Seated, Asks, require_admin-Seated, transfer-Seated, remove-Seated, insert_invite-Seated,
  write_accept-Seated,
}

pub data CompanyRequest : Type 0 where
  transfer_to : (caller user : ℕ) → CompanyRequest
  remove_user : (caller user : ℕ) → CompanyRequest
  invite_to : (caller id : ℕ) → (email hash : String) → (is_in mailed : Bool) → CompanyRequest
  accept_by : (user : ℕ) → (is_employer : Bool) → (email hash : String) → CompanyRequest

abbrev pub perform_request : (Db → Db) → ℕ → CompanyRequest → Db → Db × Result
perform_request m now (transfer_to caller user) db = transfer_admin m caller user db
perform_request m now (remove_user caller user) db = remove_member m caller user db
perform_request m now (invite_to caller id email hash is_in mailed) db =
    invite m caller id now email hash is_in mailed db
perform_request m now (accept_by user is_employer email hash) db =
    accept_invite m user now is_employer email hash db

-- The request is one on the company, and the requests in between do not undo what it has read: the one
-- who becomes administrator is still a member, the one who is removed is not made administrator, the
-- plan has not lost seats, and the invite that is renewed or accepted does not end sooner.
-- The user who is removed has one row, and the moment is not the one at which the accepted invite ends.
abbrev pub Undisturbed : (company now : ℕ) → (Db → Db) → CompanyRequest → Db → Type 0
Undisturbed c now m (transfer_to caller user) db =
    Asks caller c db × (count (is_member c user) (m db).members ≡ 1)
Undisturbed c now m (remove_user caller user) db =
    Asks caller c db
    × (count (is_member c user) db.members ≤ 1)
    × (count (is_admin_as c user) (m db).members ≤ count (is_admin_as c user) db.members)
Undisturbed c now m (invite_to caller id email hash is_in mailed) db =
    Asks caller c db
    × (seat_limit (db.plan c) ≤ seat_limit ((m db).plan c))
    × ((i : Invite)
        → find_first (is_pending_for c now email) db.invites ≡ some i
        → All (λ j. (j.id ≡ i.id) → i.expires_at ≤ j.expires_at) (m db).invites)
Undisturbed c now m (accept_by user is_employer email hash) db =
    (i : Invite)
    → find_first (λ j. j.hash == hash) db.invites ≡ some i
    → (i.company ≡ c)
      × (i.expires_at ≢ now)
      × All (λ j. (j.id ≡ i.id) → (j.company ≡ c) × (i.expires_at ≤ j.expires_at)) (m db).invites

still_live :
    (c id now ends : ℕ) (is : List Invite)
    → now < ends
    → All (λ j. (j.id ≡ id) → (j.company ≡ c) × (ends ≤ j.expires_at)) is
    → All (λ j. (j.id ≡ id) → (j.company ≡ c) × (now < j.expires_at)) is
still_live c id now ends [] soon h = tt
still_live c id now ends (j ∷ is) soon (p, h) = (
  λ e. let (same, later) = p e in (same, omega (arith, later, soon)),
  still_live c id now ends is soon h,
)

still_pending :
    (id now ends : ℕ) (is : List Invite)
    → now < ends
    → All (λ j. (j.id ≡ id) → ends ≤ j.expires_at) is
    → All (λ j. (j.id ≡ id) → is_pending j ≡ true → now < j.expires_at) is
still_pending id now ends [] soon h = tt
still_pending id now ends (j ∷ is) soon (p, h) =
    (λ e k. let later = p e in omega (arith, later, soon), still_pending id now ends is soon h)

-- An invite that passes the checks has not run out.
accept_error-none :
    (user now : ℕ) (email : String) (i : Invite) (db : Db)
    → accept_error user now email i db ≡ none
    → now ≤ i.expires_at
accept_error-none user now email i db h = ground arith

pending_for-live :
    (c now : ℕ) (email : String) (is : List Invite) (i : Invite)
    → find_first (is_pending_for c now email) is ≡ some i
    → now < i.expires_at
unfolding find_first
pending_for-live c now email [] i h = cc
pending_for-live c now email (j ∷ is) i h = elim (Bool-cases (is_pending_for c now email j)) [
  | inl e ↦ ground (arith, e, h)
  | inr e ↦ pending_for-live c now email is i (ground (arith, e, h))
]

accept_invite-Seated :
    (m : Db → Db) (c now user : ℕ) (is_employer : Bool) (email hash : String) (db : Db)
    → Undisturbed c now m (accept_by user is_employer email hash) db
    → Seated c now (m db)
    → Seated c now db
    → Seated c now (accept_invite m user now is_employer email hash db).0
unfolding accept_invite
accept_invite-Seated m c now user is_employer email hash db safe k h =
    elim (Bool-cases is_employer) [
      | inr e ↦ rw (accept_invite, e) h
      | inl e ↦ elim (Option-cases (find_first (λ j. j.hash == hash) db.invites)) [
        | inl f ↦ rw (accept_invite, e, f) h
        | inr (i, f) ↦ elim (Option-cases (accept_error user now email i db)) [
          | inr (x, g) ↦ rw (accept_invite, e, f, g) h
          | inl g ↦
              let (same, not_now, kept) = safe i f in
              let in_time = accept_error-none user now email i db g in
              let live =
                still_live c i.id now i.expires_at _ (ground (arith, in_time, not_now)) kept in
              rw (accept_invite, e, f, g, same) (write_accept-Seated c i.id user now (m db) live k)
        ]
      ]
    ]

invite-Seated :
    (m : Db → Db) (c now caller id : ℕ) (email hash : String) (is_in mailed : Bool) (db : Db)
    → Undisturbed c now m (invite_to caller id email hash is_in mailed) db
    → Seated c now (m db)
    → Seated c now db
    → Seated c now (invite m caller id now email hash is_in mailed db).0
unfolding invite
invite-Seated m c now caller id email hash is_in mailed db (asks, plan, safe) k h =
    require_admin-Seated c now caller db _ asks h (elim (Bool-cases is_in) [
      | inl e ↦ rw e h
      | inr e ↦ elim (Option-cases (find_first (is_pending_for c now email) db.invites)) [
        | inl f ↦ elim (Bool-cases (leb (seat_limit (db.plan c)) (seats c now db))) [
          | inl g ↦ rw (e, f, g) h
          | inr g ↦
              rw (e, f, g)
                (insert_invite-Seated (seat_limit (db.plan c)) c id now email hash mailed (m db)
                  plan k)
        ]
        | inr (i, f) ↦ elim (Bool-cases mailed) [
          | inr g ↦ rw (e, f, g) h
          | inl g ↦
              let live = pending_for-live c now email db.invites i f in
              let fewer =
                count-renew-le c i.id now hash (m db).invites
                  (still_pending i.id now i.expires_at _ live (safe i f)) in
              rw (e, f, g) (k.0, omega (arith, fewer, k.1))
        ]
      ]
    ])

remove_member-Seated :
    (m : Db → Db) (c now caller user : ℕ) (db : Db)
    → Undisturbed c now m (remove_user caller user) db
    → Seated c now (m db)
    → Seated c now db
    → Seated c now (remove_member m caller user db).0
unfolding remove_member
remove_member-Seated m c now caller user db (asks, once, safe) k h =
    require_admin-Seated c now caller db _ asks h
      (elim (Option-cases (find_first (is_member c user) db.members)) [
        | inl e ↦ rw e h
        | inr (t, e) ↦ elim (Bool-cases (t.is_admin && leb (count (is_admin_of c) db.members) 1)) [
          | inl f ↦ rw (e, f) h
          | inr f ↦
              let plain : t.is_admin ≡ false = ground (arith, f, h.0) in
              let before = plain-count c user db.members t once e plain in
              rw (e, f) (remove-Seated c now user (m db) (omega (arith, safe, before)) k)
        ]
      ])

transfer_admin-Seated :
    (m : Db → Db) (c now caller user : ℕ) (db : Db)
    → Undisturbed c now m (transfer_to caller user) db
    → Seated c now (m db)
    → Seated c now db
    → Seated c now (transfer_admin m caller user db).0
unfolding transfer_admin
transfer_admin-Seated m c now caller user db (asks, once) k h =
    require_admin-Seated c now caller db _ asks h
      (elim (Option-cases (find_first (is_member c user) db.members)) [
        | inl e ↦ rw e h
        | inr (t, e) ↦ elim (Bool-cases t.is_admin) [
          | inl f ↦ rw (e, f) k
          | inr f ↦ rw (e, f) (transfer-Seated c now user (m db) once k)
        ]
      ])

-- A request on the members or invites of a company keeps its one administrator and leaves no more
-- members and live invites than the plan has seats, whatever its answer, if the requests in between
-- keep both and do not undo what it has read, as Undisturbed says.
pub perform_request-Seated :
    (m : Db → Db) (c now : ℕ) (q : CompanyRequest) (db : Db)
    → Undisturbed c now m q db
    → ((d : Db) → Seated c now d → Seated c now (m d))
    → Seated c now db
    → Seated c now (perform_request m now q db).0
perform_request-Seated m c now (transfer_to caller user) db s k h =
    transfer_admin-Seated m c now caller user db s (k db h) h
perform_request-Seated m c now (remove_user caller user) db s k h =
    remove_member-Seated m c now caller user db s (k db h) h
perform_request-Seated m c now (invite_to caller id email hash is_in mailed) db s k h =
    invite-Seated m c now caller id email hash is_in mailed db s (k db h) h
perform_request-Seated m c now (accept_by user is_employer email hash) db s k h =
    accept_invite-Seated m c now user is_employer email hash db s (k db h) h
