-- ===== src/Gateway/Counter.antt =====
-- The shared counter: one row of the table rate_limits, as the statements of
-- services/gateway/src/middleware/ratelimit.ts write it. Each function gives the new row and what
-- RETURNING answers; a row is its `hits`, and `none` is a bucket that has no row yet.
pub mod Laws
use push_be.Prelude.{
  ℕ, ◌+◌, ◌-◌, ◌/◌, min, max, Bool, ◌||◌, Option, none, some, ltb, eqb, if◌then◌else◌,
}

-- RATE_SQL: one hit, while the row is under the limit.
unfoldable pub bump : ℕ → Option ℕ → Option ℕ × Option ℕ
bump limit none = (some 1, some 1)
bump limit (some hits) =
    if ltb hits limit then (some (hits + 1), some (hits + 1)) else (some hits, none)

-- LEASE_INSERT, LEASE_AFTER, LEASE_ROOM, LEASE_SHRINK and LEASE_UPDATE. The parameters are $4 (the
-- read cap), $6 (the batch) and $7 (the unused hits that are given back).
abbrev pub shrink : ℕ → ℕ
shrink room = if eqb room 0 then 0 else max 1 (room / 16)

abbrev pub lease_insert : ℕ → ℕ → ℕ
lease_insert cap batch = min batch (min cap (shrink cap))

abbrev pub lease_after : ℕ → ℕ → ℕ
lease_after hits release = hits - release

abbrev pub lease_room : ℕ → ℕ → ℕ → ℕ
lease_room cap hits release = cap - lease_after hits release

abbrev pub lease_update : ℕ → ℕ → ℕ → ℕ → ℕ
lease_update cap batch release hits =
    min batch (min (lease_room cap hits release) (shrink (lease_room cap hits release)))

-- What AUTH_RATE_SQL returns of the counter: `hits`, and `granted`, the increment of this statement.
pub record Grant : Type 0 where
  pub hits : ℕ
  pub granted : ℕ

-- The part `bumped` of AUTH_RATE_SQL, for a token that is live.
unfoldable pub claim : (cap batch release : ℕ) → Option ℕ → Option ℕ × Option Grant
claim cap batch release none = (
  some (lease_insert cap batch),
  some (record { hits = lease_insert cap batch; granted = lease_insert cap batch }),
)
claim cap batch release (some hits) =
    let granted = lease_update cap batch release hits in
    let next = lease_after hits release + granted in
    if ltb 0 release || ltb hits cap
    then (some next, some (record { hits = next; granted = granted }))
    else (some hits, none)

-- RELEASE_SQL
unfoldable pub give_back : ℕ → Option ℕ → Option ℕ
give_back amount none = none
give_back amount (some hits) = some (if ltb 0 amount then hits - amount else hits)
