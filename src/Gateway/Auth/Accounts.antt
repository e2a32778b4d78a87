-- ===== src/Gateway/Auth/Accounts.antt =====
-- Where the hits go that a request takes from the leases of its isolate, in `tokenContext` of
-- services/gateway/src/middleware/auth.ts.
use push_be.Prelude.{
  ℕ, ◌+◌, ◌≤◌, ◌<◌, String, ◌≡◌, ap, Bool, false, some, arith, ltb, if◌then◌else◌, Option-cases,
  Bool-cases, ◌⊎◌, inl, inr,
}
use push_be.Prelude.Dict.{get, get-set, Distinct-set, total-set, weight_at}
use push_be.Gateway.Lease.{
  Key, Lease, Isolate, key_eq, key_beq_iff, remaining_of, release_expired, spend_lease,
}
use push_be.Gateway.Lease.Totals.{held, outstanding, returned, outstanding-spend_lease}
use push_be.Gateway.Lease.Returns.{outstanding-release_expired, get-release_expired}
use push_be.Gateway.Lease.Keys.{IsMap, release_expired-IsMap, spend_lease-IsMap}
use push_be.Gateway.Auth.{
  State, TokenCtx, fail, dev, cached, revalidate, claims, window_of, is_expired, take_expired,
  with_lease, with_hash,
}

-- The hits that an outcome takes with it: one for a request that is admitted from the lease, and
-- what a claim is to give back to the counter.
abbrev pub used : {U : Type 0} → TokenCtx U → ℕ
used (fail status code) = 0
used dev = 0
used (cached key user) = 1
used (revalidate key) = 1
used (claims key batch release) = release

-- The lease of the key counts on the bucket.
abbrev pub Owned : Key → Key → Isolate → Type 0
Owned b key s = (l : Lease) → get key s.leases ≡ some l → l.bucket ≡ b

module _ (b : Key) where
  outstanding-take_expired :
      (key : Key) (now : ℕ) (s : Isolate)
      → Owned b key s
      → outstanding b (take_expired key now s).0 + (take_expired key now s).1 ≡ outstanding b s
  unfolding outstanding take_expired
  outstanding-take_expired key now s owner = elim (Option-cases (get key s.leases)) [
    | inl e ↦ ground arith
    | inr (l, e) ↦
        let empty : Lease = record l { remaining = 0; spent = false } in
        let mine = (key_beq_iff l.bucket b).1 (owner l e) in
        let wrote = total-set (held b) key empty s.leases in
        let before = ap (weight_at (held b)) e in ground (arith, mine, wrote, before)
  ]

  take_expired-Owned :
      (key : Key) (now : ℕ) (s : Isolate) → Owned b key s → Owned b key (take_expired key now s).0
  unfolding take_expired
  take_expired-Owned key now s owner l h = elim (Option-cases (get key s.leases)) [
    | inl e ↦ owner l (ground arith)
    | inr (m, e) ↦
        let empty : Lease = record m { remaining = 0; spent = false } in
        ground (arith, owner m e, get-set key key empty s.leases, key_beq_iff key key)
  ]

  -- An expired lease has nothing left for this request, and one that is not gives nothing back.
  left_after :
      (key : Key) (now : ℕ) (s : Isolate)
      → ((if is_expired now (get key s.leases) then 0 else remaining_of (get key s.leases))
          ≤ remaining_of (get key (take_expired key now s).0.leases))
        × (((if is_expired now (get key s.leases) then 0 else remaining_of (get key s.leases)) ≡ 0)
            ⊎ ((take_expired key now s).1 ≡ 0))
  unfolding take_expired
  left_after key now s = elim (Option-cases (get key s.leases)) [
    | inl e ↦ ground arith
    | inr (m, e) ↦ ground arith
  ]

  -- A lease with hits left loses one to the request that spends it.
  spend_left :
      (w : Bool) (key : Key) (now left : ℕ) (s : Isolate)
      → Owned b key s
      → left ≤ remaining_of (get key s.leases)
      → 0 < left
      → outstanding b (spend_lease w key now s) + 1 ≡ outstanding b s
  spend_left w key now left s owner h p = elim (Option-cases (get key s.leases)) [
    | inl e ↦ absurd (omega (arith, ap remaining_of e))
    | inr (l, e) ↦
        outstanding-spend_lease b w key now s l e (owner l e) (omega (arith, ap remaining_of e))
  ]

  module _ {U : Type 0} (expires_of : U → ℕ) (w : Bool) (limit : ℕ) where
    with_lease_accounts :
        (key : Key) (now left release : ℕ) (s : State U)
        → Owned b key s.isolate
        → left ≤ remaining_of (get key s.isolate.leases)
        → (left ≡ 0) ⊎ (release ≡ 0)
        → outstanding b (with_lease expires_of w limit key now left release s).0.isolate
            + used (with_lease expires_of w limit key now left release s).1
          ≡ outstanding b s.isolate + release
    unfolding with_lease
    with_lease_accounts key now left release s owner h either = elim (Bool-cases (ltb 0 left)) [
      | inl e ↦
          let spent = spend_left w key now left s.isolate owner h (ground arith) in
          ground (arith, e, spent)
      | inr e ↦ ground (arith, e)
    ]

    -- Where the leases of an isolate are a map, and the token's own lease, if it has one, counts on the
    -- bucket, a request neither loses nor invents hits of the bucket: what the isolate held is still
    -- held, on its way back to the counter, or used by the request.
    pub with_hash_accounts :
        (hash : String) (now : ℕ) (s : State U)
        → Owned b (record { kind = "user"; owner = hash; window = window_of now }) s.isolate
        → IsMap s.isolate
        → outstanding b (with_hash expires_of w limit hash now s).state.isolate
            + returned b (with_hash expires_of w limit hash now s).returns
            + used (with_hash expires_of w limit hash now s).ctx
          ≡ outstanding b s.isolate
    unfolding with_hash
    with_hash_accounts hash now s owner distinct =
        let key : Key = record { kind = "user"; owner = hash; window = window_of now } in
        let swept = release_expired now (some key) s.isolate in
        let taken = take_expired key now swept.0 in
        let left =
          if is_expired now (get key swept.0.leases)
          then 0
          else remaining_of (get key swept.0.leases) in
        let owned : Owned b key swept.0 =
          λ l h. owner l (get-release_expired now (some key) key s.isolate l h) in
        let sweep = outstanding-release_expired b now (some key) s.isolate distinct in
        let take = outstanding-take_expired key now swept.0 owned in
        let (enough, either) = left_after key now swept.0 in
        let rest_of =
          with_lease_accounts key now left taken.1 (record s { isolate = taken.0 })
            (take_expired-Owned key now swept.0 owned) enough either in
        ground (arith, sweep, take, rest_of)

take_expired-IsMap :
    (key : Key) (now : ℕ) (s : Isolate) → IsMap s → IsMap (take_expired key now s).0
unfolding take_expired
take_expired-IsMap key now s h = grind (arith, Distinct-set)

pub with_hash-IsMap :
    {U : Type 0} (expires_of : U → ℕ) (w : Bool) (limit : ℕ) (hash : String) (now : ℕ) (s : State U)
    → IsMap s.isolate
    → IsMap (with_hash expires_of w limit hash now s).state.isolate
unfolding with_hash with_lease
with_hash-IsMap expires_of w limit hash now s h =
    let key : Key = record { kind = "user"; owner = hash; window = window_of now } in
    let swept = release_expired now (some key) s.isolate in
    let a = take_expired-IsMap key now swept.0 (release_expired-IsMap now (some key) s.isolate h) in
    let c = spend_lease-IsMap w key now (take_expired key now swept.0).0 a in ground (arith, a, c)
