-- ===== src/Core/Jobs/Credits.antt =====
-- services/core-api/src/jobs/credits.ts and services/core-api/src/billing/credits.ts: the credits of a
-- user or a company, and the monthly grant of its plan.
pub mod Grants
use push_be.Prelude.{
  ℕ, ◌+◌, String, ◌==◌, Bool, true, false, ◌&&◌, ◌||◌, Option, none, some, List, ◌∷◌, ltb, leb,
  if◌then◌else◌, any_of,
}
use push_be.Prelude.Int.{ℤ, pos, ◌+ℤ◌, ◌-ℤ◌, ltb_ℤ}
use push_be.Core.Jobs.Config.{Audience, personal, employer}
use push_be.Core.Jobs.Database.{
  Entry, Usage, Db, Owner, of_user, of_company, newest, balance_of, settled_sum, reserved_sum, is,
}

-- `companyId ?? userId`, with the statements that go with it
abbrev pub owner_of : ℕ → Option ℕ → Owner
owner_of user none = of_user user
owner_of user (some company) = of_company company

-- `settledMicro`: a table that is missing counts for nothing.
unfoldable pub settled_micro : Db → Owner → ℕ
settled_micro db o = elim db.usage [ none ↦ 0 | some us ↦ settled_sum o db.members us ]

unfoldable pub reserved_micro : Db → Owner → ℕ
reserved_micro db o = reserved_sum o db.reservations

unfoldable pub available_micro : Db → Owner → ℤ
available_micro db o =
    balance_of (newest o db.ledger) -ℤ pos (settled_micro db o) -ℤ pos (reserved_micro db o)

-- `reserveCredits`: false where it throws the 402 INSUFFICIENT_CREDITS.
unfoldable pub reserve_credits : Db → Owner → ℕ → Bool
reserve_credits db o amount =
    if leb amount 0 then true else if ltb_ℤ (available_micro db o) (pos amount) then false else true

-- The tables PERSONAL and EMPLOYER of `grantMicro`.
unfoldable pub grant_micro : Audience → String → ℕ
grant_micro personal plan =
    if plan == "FREE"
    then 1800000
    else if plan == "PRO"
    then 27000000
    else if plan == "ULTRA"
    then 108000000
    else 0
grant_micro employer plan =
    if plan == "BASIC"
    then 18000000
    else if plan == "PRO"
    then 90000000
    else if plan == "ULTRA"
    then 180000000
    else 0

abbrev pub owner_in : Audience → ℕ → Owner
owner_in personal id = of_user id
owner_in employer id = of_company id

-- `plan?.trim() || (audience === "PERSONAL" ? "FREE" : "")`, of the trimmed text, "" where it is null
abbrev pub plan_or_free : Audience → String → String
plan_or_free audience plan =
    if plan == "" then elim audience [ personal ↦ "FREE" | employer ↦ "" ] else plan

-- ON CONFLICT (user_id, type, reference_id), or (company_id, type, reference_id)
abbrev pub granted_for : Owner → String → Entry → Bool
granted_for (of_user id) reference e =
    is e.user id && (e.kind == "PURCHASE" && e.reference == reference)
granted_for (of_company id) reference e =
    is e.company id && (e.kind == "PURCHASE" && e.reference == reference)

abbrev user_of : Owner → Option ℕ
user_of (of_user id) = some id
user_of (of_company id) = none

abbrev company_of : Owner → Option ℕ
company_of (of_user id) = none
company_of (of_company id) = some id

abbrev pub grant_entry : Owner → (id amount : ℕ) → String → (now : ℕ) → List Entry → Entry
grant_entry o id amount reference now ledger = record {
  id = id;
  user = user_of o;
  company = company_of o;
  kind = "PURCHASE";
  amount = amount;
  balance = balance_of (newest o ledger) +ℤ pos amount;
  reference = reference;
  created = now;
}

-- `ensureMonthlyGrant`; the reference is "monthly:YYYY-MM" and `id` the new row's.
unfoldable pub ensure_monthly_grant :
    Audience → String → (owner id : ℕ) → (reference : String) → (now : ℕ) → Db → Db
ensure_monthly_grant audience plan owner id reference now db =
    let o = owner_in audience owner in
    let amount = grant_micro audience (plan_or_free audience plan) in
    if leb amount 0
    then db
    else if any_of (granted_for o reference) db.ledger
    then db
    else record db { ledger = grant_entry o id amount reference now db.ledger ∷ db.ledger }
