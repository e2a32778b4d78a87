-- ===== src/Gateway/Quota/Safety.antt =====
-- The limit that all isolates share, over the steps of Quota (services/gateway/src/middleware).
use push_be.Prelude.{ℕ, ◌+◌, ◌≤◌, ◌<◌, ◌≡◌, refl, Bool, none, some, List, [], ◌∷◌, arith, All}
use push_be.Gateway.Counter.Laws.{count, claim_exact, claim_bounded}
use push_be.Gateway.Lease.{
  Key, read_cap, accept_grant, fire_timer, settle_timer, release_expired, clear_lease,
}
use push_be.Gateway.Lease.Totals.{
  outstanding-fire_timer, outstanding-settle_timer, outstanding-empty,
}
use push_be.Gateway.Lease.Returns.{outstanding-release_expired, outstanding-clear_lease}
use push_be.Gateway.Lease.Keys.{
  accept_grant-IsMap, fire_timer-IsMap, settle_timer-IsMap, release_expired-IsMap,
  clear_lease-IsMap,
}
use push_be.Gateway.Auth.{State, with_hash}
use push_be.Gateway.Auth.Accounts.{with_hash_accounts, with_hash-IsMap}
use push_be.Gateway.Window.{allow}
use push_be.Gateway.Quota.{
  Sys, Step, request, claiming, answer, fire, settle, sweep, logout, landing, losing, alone,
  bumping, Reach, here, next,
}
use push_be.Gateway.Quota.Hits.{
  held_by, AllMaps, Covered, used_parts, read_cap-le, give_back_accounts, accept_accounts,
  bump_accounts, change, IsMap-at, allow-leases, outstanding_of_leases,
}

module _ {U : Type 0} (expires_of : U → ℕ) (w : Bool) (limit : ℕ) (bucket : Key) where
  -- Every step keeps the hits covered by the row, and the row within the limit.
  Step-Covered :
      {u v : Sys U}
      → 0 < limit
      → Step expires_of w limit bucket u v
      → Covered limit bucket u
      → Covered limit bucket v
  Step-Covered {u} {v} p (request before after s hash now at owner e) c =
      let o = with_hash expires_of w limit hash now s in
      let spent =
        with_hash_accounts bucket expires_of w limit hash now s owner
          (IsMap-at limit bucket u before after s c at) in
      rw e (
        change limit bucket u _ before after s o.state c at refl
          (with_hash-IsMap expires_of w limit hash now s) refl
          (omega (arith, spent, used_parts o.ctx)))
  Step-Covered {u} {v} p (claiming batch release h e) c =
      let exact = claim_exact (read_cap limit) batch release u.row (omega (arith, c.counted)) in
      let bounded = claim_bounded (read_cap limit) batch release u.row in
      rw e (record {
        maps = c.maps;
        counted = omega (arith, exact, c.counted);
        below = omega (arith, bounded.0, c.below, read_cap-le limit);
      })
  Step-Covered {u} {v} p (answer before after s key hits g now at owner h e) c =
      let a = accept_grant w key hits (some g) (read_cap limit) now bucket s.isolate in
      let accounts = accept_accounts bucket w key hits g (read_cap limit) now s.isolate owner in
      rw e (
        change limit bucket u _ before after s (record s { isolate = a.0 }) c at refl
          (accept_grant-IsMap w key hits (some g) (read_cap limit) now bucket s.isolate) refl
          (omega (arith, accounts)))
  Step-Covered {u} {v} p (fire before after s key epoch at e) c =
      let f = fire_timer key epoch s.isolate in
      rw e (
        change limit bucket u _ before after s (record s { isolate = f.0 }) c at refl
          (fire_timer-IsMap key epoch s.isolate) refl
          (omega (arith, outstanding-fire_timer bucket key epoch s.isolate)))
  Step-Covered {u} {v} p (settle before after s same key at e) c = rw e (
      change limit bucket u _ before after s
        (record s { isolate = settle_timer same key s.isolate }) c at refl
        (settle_timer-IsMap same key s.isolate) refl
        (omega (arith, outstanding-settle_timer bucket same key s.isolate)))
  Step-Covered {u} {v} p (sweep before after s now keep at e) c =
      let r = release_expired now keep s.isolate in
      let exact =
        outstanding-release_expired bucket now keep s.isolate
          (IsMap-at limit bucket u before after s c at) in
      rw e (
        change limit bucket u _ before after s (record s { isolate = r.0 }) c at refl
          (release_expired-IsMap now keep s.isolate) refl (omega (arith, exact)))
  Step-Covered {u} {v} p (logout before after s hash at e) c =
      let r = clear_lease hash s.isolate in
      let exact =
        outstanding-clear_lease bucket hash s.isolate
          (IsMap-at limit bucket u before after s c at) in
      rw e (
        change limit bucket u _ before after s (record s { isolate = r.0 }) c at refl
          (clear_lease-IsMap hash s.isolate) refl (omega (arith, exact)))
  Step-Covered {u} {v} p (landing amount h e) c =
      let exact = give_back_accounts amount u.row (omega (arith, c.counted)) in
      rw e (record {
        maps = c.maps;
        counted = omega (arith, exact, c.counted);
        below = omega (arith, exact, c.below);
      })
  Step-Covered {u} {v} p (losing a g r e) c =
      rw e (record { maps = c.maps; counted = omega (arith, c.counted); below = c.below })
  Step-Covered {u} {v} p (alone before after s window_ms now at e) c =
      let a = allow bucket limit window_ms now s.isolate in
      let same : a.0.leases ≡ s.isolate.leases =
        allow-leases bucket limit window_ms now s.isolate in
      rw e (
        change limit bucket u _ before after s (record s { isolate = a.0 }) c at refl
          (λ h. rw same h) refl (omega (arith, outstanding_of_leases bucket s.isolate a.0 same)))
  Step-Covered {u} {v} p (bumping e) c =
      let (exact, bounded) = bump_accounts limit u.row p in
      rw e (record {
        maps = c.maps;
        counted = omega (arith, exact, c.counted);
        below = omega (arith, bounded, c.below);
      })

  Reach-Covered :
      {u v : Sys U}
      → 0 < limit
      → Covered limit bucket u
      → Reach expires_of w limit bucket u v
      → Covered limit bucket v
  Reach-Covered p c here = c
  Reach-Covered p c (next r st) = Step-Covered p st (Reach-Covered p c r)

-- At the start of the minute: no row, no message under way, and isolates that hold no lease.
abbrev pub AllEmpty : {U : Type 0} → List (State U) → Type 0
AllEmpty isolates = All (λ s. s.isolate.leases ≡ []) isolates

abbrev pub start : {U : Type 0} → List (State U) → Sys U
start isolates = record {
  row = none;
  isolates = isolates;
  asked = 0;
  granted = 0;
  returning = 0;
  served = 0;
  python = 0;
  unshared = 0;
}

AllEmpty-held :
    {U : Type 0} (b : Key) (isolates : List (State U))
    → AllEmpty isolates
    → (held_by b isolates ≡ 0) × AllMaps isolates
AllEmpty-held b [] h = (refl, tt)
AllEmpty-held b (s ∷ others) (e, h) =
    let (none_held, maps) = AllEmpty-held b others h in
    (omega (arith, none_held, outstanding-empty b s.isolate e), ((rw e tt), maps))

-- Whatever the order of the steps, and whichever statements fail or answers are lost, the requests
-- that the gateway lets through by the shared count and those of the Python worker in a minute are at
-- most the limit, and the shared row has counted each of them. The requests that an isolate lets through
-- by its own count, after its claim has failed, are not among them.
pub served-le-limit :
    {U : Type 0} (expires_of : U → ℕ) (w : Bool) (limit : ℕ) (bucket : Key)
    (isolates : List (State U)) (v : Sys U)
    → 0 < limit
    → AllEmpty isolates
    → Reach expires_of w limit bucket (start isolates) v
    → (v.served + v.python ≤ limit) × (v.served + v.python ≤ count v.row)
served-le-limit expires_of w limit bucket isolates v p empty r =
    let (held, maps) = AllEmpty-held bucket isolates empty in
    let first : Covered limit bucket (start isolates) = record {
      maps = maps;
      counted = omega (arith, held);
      below = omega arith;
    } in
    let c = Reach-Covered expires_of w limit bucket p first r in
    (omega (arith, c.counted, c.below), omega (arith, c.counted))
