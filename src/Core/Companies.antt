-- ===== src/Core/Companies.antt =====
-- services/core-api/src/routes/companies.ts: the members of companies and their invites. What other
-- requests do between the reads of a handler and its write is the argument `meanwhile`; none comes
-- between the insert of an invite and its mail. Ids and times are numbers; e-mail addresses are in lower
-- case, the token of an invite is its digest, and the body of transferAdmin has been checked.
pub mod Counts
pub mod Seats
pub mod Requests
mod Examples
use push_be.Prelude.{
  ℕ, suc, ◌+◌, String, ◌==◌, Bool, true, false, not, ◌&&◌, ◌||◌, Option, none, some, List, [], ◌∷◌,
  eqb, leb, ltb, any_of, if◌then◌else◌,
}

pub data CompanyPlan : Type 0 where
  no_plan basic pro ultra : CompanyPlan

-- company_members
pub record Member : Type 0 where
  pub company : ℕ
  pub user : ℕ
  pub is_admin : Bool

-- company_invites
pub record Invite : Type 0 where
  pub id : ℕ
  pub company : ℕ
  pub email : String
  pub hash : String
  pub expires_at : ℕ
  pub accepted_at : Option ℕ

-- `deleting` are the companies with a deletion_requested_at.
pub record Db : Type 0 where
  pub members : List Member
  pub invites : List Invite
  pub plan : ℕ → CompanyPlan
  pub deleting : ℕ → Bool

-- seatLimit
abbrev pub seat_limit : CompanyPlan → ℕ
seat_limit pro = 2
seat_limit ultra = 5
seat_limit _ = 0

-- INVITE_MS
abbrev pub invite_ms : ℕ
invite_ms = 604800000

abbrev pub is_pending : Invite → Bool
is_pending i = elim i.accepted_at [ none ↦ true | some t ↦ false ]

-- An invite that takes a seat.
abbrev pub is_live : ℕ → ℕ → Invite → Bool
is_live company now i = eqb i.company company && (is_pending i && ltb now i.expires_at)

abbrev pub is_plain : ℕ → Member → Bool
is_plain company m = eqb m.company company && not m.is_admin

abbrev pub is_admin_of : ℕ → Member → Bool
is_admin_of company m = eqb m.company company && m.is_admin

-- count(*)
unfoldable pub count : {A : Type 0} → (A → Bool) → List A → ℕ
count f [] = 0
count f (a ∷ as') = let others = count f as' in if f a then suc others else others

-- The seats that INVITE_SEAT and usedOf count.
abbrev pub seats : ℕ → ℕ → Db → ℕ
seats company now db = count (is_plain company) db.members + count (is_live company now) db.invites

unfoldable pub find_first : {A : Type 0} → (A → Bool) → List A → Option A
find_first f [] = none
find_first f (a ∷ as') = if f a then some a else find_first f as'

abbrev pub is_member : ℕ → ℕ → Member → Bool
is_member company user m = eqb m.company company && eqb m.user user

pub data Error : Type 0 where
  not_found forbidden conflict seat_limit_reached provider_error : Error

pub data Result : Type 0 where
  done : Result
  err : Error → Result

-- `requireAdmin`, with the company of the user
abbrev pub require_admin : ℕ → Db → (ℕ → Db × Result) → Db × Result
require_admin user db next = elim (find_first (λ m. eqb m.user user) db.members) [
  | none ↦ (db, err not_found)
  | some m ↦ if m.is_admin then next m.company else (db, err forbidden)
]

-- TRANSFER_ADMIN, of one row
abbrev pub transferred : ℕ → ℕ → Member → Member
transferred company user m =
    if eqb m.company company && (eqb m.user user || m.is_admin)
    then record m { is_admin = eqb m.user user }
    else m

unfoldable pub transfer : ℕ → ℕ → List Member → List Member
transfer company user [] = []
transfer company user (m ∷ ms) = transferred company user m ∷ transfer company user ms

unfoldable pub transfer_admin : (Db → Db) → (caller user : ℕ) → Db → Db × Result
transfer_admin meanwhile caller user db = require_admin caller db (λ company.
    elim (find_first (is_member company user) db.members) [
      | none ↦ (db, err not_found)
      | some t ↦
          if t.is_admin
          then (meanwhile db, done)
          else let d = meanwhile db in
            (record d { members = transfer company user d.members }, done)
    ])

unfoldable pub remove : {A : Type 0} → (A → Bool) → List A → List A
remove f [] = []
remove f (a ∷ as') = let others = remove f as' in if f a then others else a ∷ others

-- The check and the deletion of `removeMember`
abbrev pub remove_target : (Db → Db) → (company user : ℕ) → Member → Db → Db × Result
remove_target meanwhile company user t db =
    if t.is_admin && leb (count (is_admin_of company) db.members) 1
    then (db, err conflict)
    else let d = meanwhile db in
      (record d { members = remove (is_member company user) d.members }, done)

unfoldable pub remove_member : (Db → Db) → (caller user : ℕ) → Db → Db × Result
remove_member meanwhile caller user db = require_admin caller db (λ company.
    elim (find_first (is_member company user) db.members) [
      | none ↦ (db, err not_found)
      | some t ↦ remove_target meanwhile company user t db
    ])

-- The UPDATE of a pending invite by its id.
abbrev pub renewed : (id : ℕ) → String → ℕ → Invite → Invite
renewed id hash expires i =
    if eqb i.id id then record i { hash = hash; expires_at = expires } else i

unfoldable pub renew : (id : ℕ) → String → ℕ → List Invite → List Invite
renew id hash expires [] = []
renew id hash expires (i ∷ is) = renewed id hash expires i ∷ renew id hash expires is

-- The insert of a new invite while there is a seat, by the limit that was read, then the mail; without it the row goes again.
abbrev pub insert_invite :
    (limit company id now : ℕ) → (email hash : String) → Bool → Db → Db × Result
insert_invite limit company id now email hash mailed d =
    if leb limit (seats company now d)
    then (d, err seat_limit_reached)
    else if mailed
    then (
      record d {
        invites =
            record {
              id = id;
              company = company;
              email = email;
              hash = hash;
              expires_at = now + invite_ms;
              accepted_at = none;
            }
            ∷ d.invites;
      },
      done,
    )
    else (record d { invites = remove (λ i. eqb i.id id) d.invites }, err provider_error)

abbrev pub is_pending_for : (company now : ℕ) → String → Invite → Bool
is_pending_for company now email i = is_live company now i && i.email == email

-- `is_in` is whether a member of the company has the address, `mailed` whether the mail is sent.
unfoldable pub invite :
    (Db → Db)
    → (caller id now : ℕ) → (email hash : String) → (is_in mailed : Bool) → Db
    → Db × Result
invite meanwhile caller id now email hash is_in mailed db = require_admin caller db (λ company.
    if is_in
    then (db, err conflict)
    else elim (find_first (is_pending_for company now email) db.invites) [
      | some i ↦
          if not mailed
          then (db, err provider_error)
          else let d = meanwhile db in
            (record d { invites = renew i.id hash (now + invite_ms) d.invites }, done)
      | none ↦
          if leb (seat_limit (db.plan company)) (seats company now db)
          then (db, err seat_limit_reached)
          else insert_invite (seat_limit (db.plan company)) company id now email hash mailed
              (meanwhile db)
    ])

-- The part `claimed` of ACCEPT_INVITE
unfoldable pub claim : (id now : ℕ) → List Invite → List Invite
claim id now [] = []
claim id now (i ∷ is) =
    let others = claim id now is in
    if eqb i.id id && is_pending i then record i { accepted_at = some now } ∷ is else i ∷ others

-- ACCEPT_INVITE. A user is a member of one company at most.
unfoldable pub write_accept : (id company user now : ℕ) → Db → Db × Result
write_accept id company user now d =
    if not (any_of (λ i. eqb i.id id && is_pending i) d.invites)
    then (d, err conflict)
    else if any_of (λ m. eqb m.user user) d.members
    then (d, err conflict)
    else (
      record d {
        invites = claim id now d.invites;
        members = record { company = company; user = user; is_admin = false } ∷ d.members;
      },
      done,
    )

-- What is wrong with the invite; `email` is the user's address.
abbrev pub accept_error : (user now : ℕ) → String → Invite → Db → Option Error
accept_error user now email i db =
    if not (is_pending i) || db.deleting i.company
    then some conflict
    else if ltb i.expires_at now
    then some not_found
    else if email == "" || not (email == i.email)
    then some forbidden
    else if any_of (λ m. eqb m.user user) db.members
    then some conflict
    else none

unfoldable pub accept_invite :
    (Db → Db) → (user now : ℕ) → (is_employer : Bool) → (email hash : String) → Db → Db × Result
accept_invite meanwhile user now is_employer email hash db =
    if not is_employer
    then (db, err forbidden)
    else elim (find_first (λ i. i.hash == hash) db.invites) [
      | none ↦ (db, err not_found)
      | some i ↦ elim (accept_error user now email i db) [
        | some e ↦ (db, err e)
        | none ↦ write_accept i.id i.company user now (meanwhile db)
      ]
    ]
