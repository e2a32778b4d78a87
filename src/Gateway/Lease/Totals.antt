-- ===== src/Gateway/Lease/Totals.antt =====
-- The hits of one bucket that an isolate holds: what each operation on the leases does to them.
use push_be.Prelude.{
  ℕ, ◌+◌, ◌-◌, ◌≤◌, ◌<◌, ◌≡◌, refl, ap, Bool, true, false, Option, none, some, List, [], ◌∷◌, ◌++◌,
  arith, if◌then◌else◌, Bool-cases, Option-cases, inl, inr,
}
use push_be.Prelude.Dict.{Dict, get, set, total, weight_at, total-set, total-delete-le}
use push_be.Gateway.Lease.{
  Key, Lease, Isolate, lease_ttl_ms, remaining_of, key_beq, key_beq_iff, key_eq, worth_returning,
  release_lease, arm_release, fire_timer, settle_timer, remember_hits, accept_grant, spend_lease,
  granted_lease, granted_count,
}

-- The unused hits of a lease, if they are the bucket's.
abbrev pub held : Key → Lease → ℕ
held b l = if key_beq l.bucket b then l.remaining else 0

-- The unused hits of the bucket in all the leases of an isolate.
unfoldable pub outstanding : Key → Isolate → ℕ
outstanding b s = total (held b) s.leases

-- The hits of the bucket in a list of amounts on their way back to the counter.
abbrev pub returned : Key → List (Key × ℕ) → ℕ
returned b [] = 0
returned b ((k, n) ∷ r) = (if key_beq k b then n else 0) + returned b r

pub returned-append :
    (b : Key) (xs ys : List (Key × ℕ)) → returned b (xs ++ ys) ≡ returned b xs + returned b ys
returned-append b [] ys = omega arith
returned-append b ((k, n) ∷ xs) ys = omega (arith, returned-append b xs ys)

-- A release takes from the lease what it returns.
pub release_lease_exact :
    (b : Key) (l : Lease) → held b (release_lease l).0 + returned b (release_lease l).1 ≡ held b l
unfolding release_lease
release_lease_exact b l = ground arith

module _ (b : Key) where
  -- A lease that is written over by one that holds as much.
  total-same :
      (k : Key) (l l' : Lease) (m : Dict Key Lease)
      → get k m ≡ some l
      → held b l' ≡ held b l
      → total (held b) (set k l' m) ≡ total (held b) m
  total-same k l l' m h e = omega (arith, total-set (held b) k l' m, ap (weight_at (held b)) h, e)

  pub outstanding-arm_release :
      (w : Bool) (k : Key) (s : Isolate) → outstanding b (arm_release w k s) ≡ outstanding b s
  unfolding outstanding arm_release
  outstanding-arm_release false k s = refl
  outstanding-arm_release true k s = elim (Option-cases (get k s.leases)) [
    | inl e ↦ rw e refl
    | inr (l, e) ↦ elim (Bool-cases (worth_returning l)) [
      | inl w ↦ rw (e, w) (total-same k l _ s.leases e refl)
      | inr w ↦ rw (e, w) refl
    ]
  ]

  -- A timer that fires takes out of the lease what goes back to the counter.
  pub outstanding-fire_timer :
      (k : Key) (epoch : ℕ) (s : Isolate)
      → outstanding b (fire_timer k epoch s).0 + returned b (fire_timer k epoch s).1
        ≡ outstanding b s
  unfolding outstanding fire_timer
  outstanding-fire_timer k epoch s = elim (Option-cases (get k s.leases)) [
    | inl e ↦ ground arith
    | inr (l, e) ↦ ground (
      arith,
      total-set (held b) k (release_lease l).0 s.leases,
      ap (weight_at (held b)) e,
      release_lease_exact b l,
    )
  ]

  pub outstanding-settle_timer :
      (same : Bool) (k : Key) (s : Isolate)
      → outstanding b (settle_timer same k s) ≤ outstanding b s
  unfolding outstanding settle_timer
  outstanding-settle_timer same k s = ground (arith, total-delete-le (held b) k s.leases)

  -- A request that spends takes one hit out of a lease that has one.
  pub outstanding-spend_lease :
      (w : Bool) (k : Key) (now : ℕ) (s : Isolate) (l : Lease)
      → get k s.leases ≡ some l
      → l.bucket ≡ b
      → 0 < l.remaining
      → outstanding b (spend_lease w k now s) + 1 ≡ outstanding b s
  unfolding outstanding spend_lease
  outstanding-spend_lease w k now s l e owner h =
      let last : Lease = record l {
        remaining = l.remaining - 1;
        expires_at = now + lease_ttl_ms;
        spent = true;
      } in
      let less : Lease = record l {
        remaining = l.remaining - 1;
        expires_at = now + lease_ttl_ms;
      } in
      let mine = (key_beq_iff l.bucket b).1 owner in
      let before = ap (weight_at (held b)) e in
      let at_last = total-set (held b) k last s.leases in
      let at_less = total-set (held b) k less s.leases in
      let armed = outstanding-arm_release w k (record s { leases = set k less s.leases }) in
      ground (arith, mine, before, at_last, at_less, armed)

  -- A lease with nothing left is not spent from.
  pub spend_lease-empty :
      (w : Bool) (k : Key) (now : ℕ) (s : Isolate) (l : Lease)
      → get k s.leases ≡ some l
      → l.remaining ≡ 0
      → spend_lease w k now s ≡ s
  unfolding spend_lease
  spend_lease-empty w k now s l e h = ground arith

  weight-own :
      (o : Option Lease)
      → ((l : Lease) → o ≡ some l → l.bucket ≡ b)
      → weight_at (held b) o ≡ remaining_of o
  weight-own none h = refl
  weight-own (some l) h = rw ((key_beq_iff l.bucket b).1 (h l refl)) refl

  -- A grant that is accepted adds the granted hits but the one that its request takes.
  pub outstanding-accept_grant :
      (w : Bool) (k : Key) (hits : ℕ) (granted : Option ℕ) (limit now : ℕ) (s : Isolate)
      → ((l : Lease) → get k s.leases ≡ some l → l.bucket ≡ b)
      → (accept_grant w k (some hits) granted limit now b s).1 ≡ true
      → outstanding b (accept_grant w k (some hits) granted limit now b s).0 + 1
        ≡ outstanding b s + granted_count granted
  unfolding outstanding accept_grant remember_hits
  outstanding-accept_grant w k hits granted limit now s owner h =
      let lease = granted_lease (get k s.leases) hits (granted_count granted) limit now b in
      let noted = remember_hits k (some hits) limit s in
      let mine = (key_beq_iff b b).1 refl in
      let before = weight-own (get k s.leases) owner in
      let wrote = total-set (held b) k lease s.leases in
      let armed = outstanding-arm_release w k (record noted { leases = set k lease s.leases }) in
      ground (arith, mine, before, wrote, armed)

  -- A grant that is refused leaves the isolate with no more than it had.
  pub outstanding-accept_grant_refused :
      (w : Bool) (k : Key) (hits granted : Option ℕ) (limit now : ℕ) (bucket : Key) (s : Isolate)
      → (accept_grant w k hits granted limit now bucket s).1 ≡ false
      → outstanding b (accept_grant w k hits granted limit now bucket s).0 ≤ outstanding b s
  unfolding outstanding accept_grant remember_hits
  outstanding-accept_grant_refused w k none granted limit now bucket s h =
      ground (arith, total-delete-le (held b) k s.leases)
  outstanding-accept_grant_refused w k (some hits) granted limit now bucket s h =
      ground (arith, total-delete-le (held b) k s.leases)

pub outstanding-empty : (b : Key) (s : Isolate) → s.leases ≡ [] → outstanding b s ≡ 0
unfolding outstanding total
outstanding-empty b s e = rw e refl
