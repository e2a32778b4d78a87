-- ===== src/Gateway/Quota/Hits.antt =====
-- The hits that isolates and messages hold, and their sum with one isolate changed: the steps of Quota
-- (services/gateway/src/middleware).
use push_be.Prelude.{
  ℕ, ◌+◌, ◌≤◌, ◌<◌, max, ◌≡◌, refl, ap, Bool, false, Option, none, some, List, [], ◌∷◌, ◌++◌, arith,
  All, Bool-cases, inl, inr,
}
use push_be.Gateway.Counter.{bump, give_back}
use push_be.Gateway.Counter.Laws.{count}
use push_be.Gateway.Lease.{Key, Isolate, read_cap, accept_grant}
use push_be.Gateway.Lease.Totals.{
  outstanding, outstanding-accept_grant, outstanding-accept_grant_refused,
}
use push_be.Gateway.Lease.Keys.{IsMap}
use push_be.Gateway.Auth.{State, TokenCtx, fail, dev, cached, revalidate, claims}
use push_be.Gateway.Auth.Accounts.{Owned, used}
use push_be.Gateway.Window.{allow}
use push_be.Gateway.Quota.{Sys, admitted, asks, one_if, one_if_some}

-- The hits of the bucket that the isolates hold.
abbrev pub held_by : {U : Type 0} → Key → List (State U) → ℕ
held_by b [] = 0
held_by b (s ∷ others) = outstanding b s.isolate + held_by b others

held_by-append :
    {U : Type 0} (b : Key) (xs ys : List (State U))
    → held_by b (xs ++ ys) ≡ held_by b xs + held_by b ys
held_by-append b [] ys = omega arith
held_by-append b (x ∷ xs) ys = omega (arith, held_by-append b xs ys)

abbrev pub AllMaps : {U : Type 0} → List (State U) → Type 0
AllMaps isolates = All (λ s. IsMap s.isolate) isolates

-- What an isolate among the others is replaced by.
All-replace :
    {U : Type 0} (before after : List (State U)) (s t : State U)
    → (IsMap s.isolate → IsMap t.isolate)
    → AllMaps (before ++ s ∷ after)
    → AllMaps (before ++ t ∷ after)
All-replace [] after s t f (h, k) = (f h, k)
All-replace (x ∷ before) after s t f (h, k) = (h, All-replace before after s t f k)

All-at :
    {U : Type 0} (before after : List (State U)) (s : State U)
    → AllMaps (before ++ s ∷ after)
    → IsMap s.isolate
All-at [] after s (h, k) = h
All-at (x ∷ before) after s (h, k) = All-at before after s k

-- Every hit that an isolate or a message may still use, and every request let through, is on the row.
pub record Covered {U : Type 0} (limit : ℕ) (bucket : Key) (u : Sys U) : Type 0 where
  pub maps : AllMaps u.isolates
  pub counted :
      u.served + u.python + held_by bucket u.isolates + u.asked + u.granted + u.returning
      ≤ count u.row
  pub below : count u.row ≤ limit

pub used_parts : {U : Type 0} (c : TokenCtx U) → used c ≡ admitted c + asks c
used_parts (fail status code) = omega arith
used_parts dev = omega arith
used_parts (cached key user) = omega arith
used_parts (revalidate key) = omega arith
used_parts (claims key batch release) = omega arith

pub read_cap-le : (limit : ℕ) → read_cap limit ≤ limit
unfolding read_cap
read_cap-le limit = ground arith

accept_none :
    (b : Key) (w : Bool) (key : Key) (g : Option ℕ) (limit now : ℕ) (s : Isolate)
    → (accept_grant w key none g limit now b s).1 ≡ false
unfolding accept_grant
accept_none b w key g limit now s = refl

held_by-at :
    {U : Type 0} (b : Key) (before after : List (State U)) (s : State U)
    → held_by b (before ++ s ∷ after)
      ≡ held_by b before + (outstanding b s.isolate + held_by b after)
held_by-at b before after s = held_by-append b before (s ∷ after)

pub give_back_accounts :
    (amount : ℕ) (row : Option ℕ)
    → amount ≤ count row
    → count (give_back amount row) + amount ≡ count row
unfolding give_back
give_back_accounts amount none h = ground arith
give_back_accounts amount (some n) h = ground arith

-- An accepted answer carries a hit for its request; a refused one adds nothing.
pub accept_accounts :
    (b : Key) (w : Bool) (key : Key) (hits : Option ℕ) (g limit now : ℕ) (s : Isolate)
    → Owned b key s
    → outstanding b (accept_grant w key hits (some g) limit now b s).0
        + one_if (accept_grant w key hits (some g) limit now b s).1
      ≤ outstanding b s + g
accept_accounts b w key none g limit now s owner =
    let refused = accept_none b w key (some g) limit now s in
    omega (
      arith,
      ap one_if refused,
      outstanding-accept_grant_refused b w key none (some g) limit now b s refused,
    )
accept_accounts b w key (some n) g limit now s owner =
    elim (Bool-cases (accept_grant w key (some n) (some g) limit now b s).1) [
      | inl e ↦
          omega
            (arith, ap one_if e, outstanding-accept_grant b w key n (some g) limit now s owner e)
      | inr e ↦ omega (
        arith,
        ap one_if e,
        outstanding-accept_grant_refused b w key (some n) (some g) limit now b s e,
      )
    ]

pub bump_accounts :
    (limit : ℕ) (row : Option ℕ)
    → 0 < limit
    → (count (bump limit row).0 ≡ count row + one_if_some (bump limit row).1)
      × (count (bump limit row).0 ≤ max limit (count row))
unfolding bump
bump_accounts limit none h = ground arith
bump_accounts limit (some n) h = ground arith

module _ {U : Type 0} (limit : ℕ) (bucket : Key) where
  -- One isolate changes: what it gives up is served, asked or on its way back.
  pub change :
      (u v : Sys U) (before after : List (State U)) (s t : State U)
      → Covered limit bucket u
      → u.isolates ≡ before ++ s ∷ after
      → v.isolates ≡ before ++ t ∷ after
      → (IsMap s.isolate → IsMap t.isolate)
      → v.row ≡ u.row
      → v.served + v.python + outstanding bucket t.isolate + v.asked + v.granted + v.returning
        ≤ u.served + u.python + outstanding bucket s.isolate + u.asked + u.granted + u.returning
      → Covered limit bucket v
  change u v before after s t c at at' keeps same less = record {
    maps = rw at' (All-replace before after s t keeps (rw at at c.maps));
    counted = omega (
      arith,
      c.counted,
      ap (held_by bucket) at,
      ap (held_by bucket) at',
      held_by-at bucket before after s,
      held_by-at bucket before after t,
      ap count same,
      less,
    );
    below = omega (arith, c.below, ap count same);
  }

  pub IsMap-at :
      (u : Sys U) (before after : List (State U)) (s : State U)
      → Covered limit bucket u
      → u.isolates ≡ before ++ s ∷ after
      → IsMap s.isolate
  IsMap-at u before after s c at = All-at before after s (rw at at c.maps)

-- The window of an isolate holds no lease.
pub allow-leases :
    (key : Key) (limit window_ms now : ℕ) (s : Isolate)
    → (allow key limit window_ms now s).0.leases ≡ s.leases
unfolding allow
allow-leases key limit window_ms now s = ground arith

pub outstanding_of_leases :
    (b : Key) (s t : Isolate) → t.leases ≡ s.leases → outstanding b t ≡ outstanding b s
unfolding outstanding
outstanding_of_leases b s t h = rw h refl
