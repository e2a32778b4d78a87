-- ===== src/Gateway/Counter/Laws.antt =====
-- The claims on the shared counter, in services/gateway/src/middleware/ratelimit.ts.
use push_be.Prelude.{ℕ, ◌+◌, ◌≤◌, ◌<◌, max, ◌≡◌, Option, none, some, arith}
use push_be.Gateway.Counter.{Grant, claim}

abbrev pub count : Option ℕ → ℕ
count none = 0
count (some hits) = hits

-- What a claim was granted, 0 where it returned no row.
abbrev pub granted_of : Option Grant → ℕ
granted_of none = 0
granted_of (some g) = g.granted

-- A claim adds to the counter just what it grants, after it has given back what it was asked to.
pub claim_exact :
    (cap batch release : ℕ) (row : Option ℕ)
    → release ≤ count row
    → count (claim cap batch release row).0 + release
      ≡ count row + granted_of (claim cap batch release row).1
unfolding claim
claim_exact cap batch release none h = ground arith
claim_exact cap batch release (some hits) h = ground arith

-- A claim never brings the counter past the cap, and never grants more than the batch.
pub claim_bounded :
    (cap batch release : ℕ) (row : Option ℕ)
    → (count (claim cap batch release row).0 ≤ max cap (count row))
      × (granted_of (claim cap batch release row).1 ≤ batch)
unfolding claim
claim_bounded cap batch release none = ground arith
claim_bounded cap batch release (some hits) = ground arith

-- While there is room under the cap a claim of at least one hit is granted at least one.
pub claim_progress :
    (cap batch release : ℕ) (row : Option ℕ)
    → 0 < batch
    → count row < cap + release
    → 0 < cap
    → 0 < granted_of (claim cap batch release row).1
unfolding claim
claim_progress cap batch release none b h c = ground arith
claim_progress cap batch release (some hits) b h c = ground arith
