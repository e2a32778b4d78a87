-- ===== src/Core/Jobs/Database.antt =====
-- The tables behind the job queue, as the statements of services/core-api/src/jobs and of
-- services/core-api/src/billing/credits.ts read and write them. An id is a number, a time is in
-- milliseconds, and a row holds the columns that those statements name.
use push_be.Prelude.{
  ℕ, ◌+◌, String, Bool, true, false, ◌&&◌, ◌||◌, Option, none, some, List, [], ◌∷◌, eqb, ltb,
  if◌then◌else◌, any_of,
}
use push_be.Prelude.Int.{ℤ, pos}
use push_be.Core.Jobs.Config.{JobType, QueueName, Plan}

-- billing_ledger
pub record Entry : Type 0 where
  pub id : ℕ
  pub user : Option ℕ
  pub company : Option ℕ
  pub kind : String
  pub amount : ℕ
  pub balance : ℤ
  pub reference : String
  pub created : ℕ

-- ai_usage
pub record Usage : Type 0 where
  pub user : ℕ
  pub cost : ℕ
  pub is_settled : Bool

pub data Status : Type 0 where
  reserved settled released : Status

-- credit_reservations
pub record Reservation : Type 0 where
  pub job : ℕ
  pub user : ℕ
  pub company : Option ℕ
  pub amount : ℕ
  pub status : Status

-- ai_jobs; `waiting` is the status QUEUED or RETRY
pub record Job : Type 0 where
  pub id : ℕ
  pub type : JobType
  pub queue : QueueName
  pub user : ℕ
  pub company : Option ℕ
  pub plan : Plan
  pub waiting : Bool
  pub attempts : ℕ
  pub max_attempts : ℕ
  pub idempotency_key : Option String

-- `usage` is none where the table is not migrated yet; a member is a user and a company.
pub record Db : Type 0 where
  pub ledger : List Entry
  pub usage : Option (List Usage)
  pub reservations : List Reservation
  pub jobs : List Job
  pub outbox : List (ℕ × QueueName)
  pub members : List (ℕ × ℕ)

-- `column = $1`, which a NULL never is
abbrev pub is : Option ℕ → ℕ → Bool
is none id = false
is (some a) id = eqb a id

abbrev pub is_reserved : Status → Bool
is_reserved reserved = true
is_reserved _ = false

-- Whom a statement is about: a user, or a company.
pub data Owner : Type 0 where
  of_user of_company : ℕ → Owner

-- WHERE user_id = $1, or WHERE company_id = $1 AND user_id IS NULL
abbrev pub is_entry_of : Owner → Entry → Bool
is_entry_of (of_user id) e = is e.user id
is_entry_of (of_company id) e = is e.company id && (elim e.user [ none ↦ true | some u ↦ false ])

-- ORDER BY created_at DESC, id DESC
abbrev pub is_newer : Entry → Entry → Bool
is_newer a b = ltb b.created a.created || eqb a.created b.created && ltb b.id a.id

abbrev newest_of : Entry → Option Entry → Entry
newest_of e none = e
newest_of e (some f) = if is_newer f e then f else e

-- USER_CHARGED and COMPANY_CHARGED: the newest entry, LIMIT 1.
unfoldable pub newest : Owner → List Entry → Option Entry
newest o [] = none
newest o (e ∷ es) =
    let later = newest o es in if is_entry_of o e then some (newest_of e later) else later

abbrev pub balance_of : Option Entry → ℤ
balance_of none = pos 0
balance_of (some e) = e.balance

abbrev is_member : ℕ → ℕ → List (ℕ × ℕ) → Bool
is_member company user members = any_of (λ m. eqb m.0 user && eqb m.1 company) members

-- USER_SETTLED and COMPANY_SETTLED, over the rows
unfoldable pub settled_sum : Owner → List (ℕ × ℕ) → List Usage → ℕ
settled_sum o members [] = 0
settled_sum (of_user id) members (u ∷ us) =
    (if u.is_settled && eqb u.user id then u.cost else 0) + settled_sum (of_user id) members us
settled_sum (of_company id) members (u ∷ us) =
    (if u.is_settled && is_member id u.user members then u.cost else 0)
    + settled_sum (of_company id) members us

abbrev pub is_reservation_of : Owner → Reservation → Bool
is_reservation_of (of_user id) r = eqb r.user id
is_reservation_of (of_company id) r = is r.company id

-- USER_RESERVED and COMPANY_RESERVED
unfoldable pub reserved_sum : Owner → List Reservation → ℕ
reserved_sum o [] = 0
reserved_sum o (r ∷ rs) =
    (if is_reservation_of o r && is_reserved r.status then r.amount else 0) + reserved_sum o rs
