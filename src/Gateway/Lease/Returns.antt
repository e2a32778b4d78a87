-- ===== src/Gateway/Lease/Returns.antt =====
-- The sweeps over the leases, `releaseExpired` and `clearLease` of
-- services/gateway/src/middleware/ratelimit.ts, and the hits that go back.
use push_be.Prelude.{
  ℕ, ◌+◌, String, ◌≡◌, Bool, [], ◌∷◌, Option, some, arith, ap, Bool-cases, inl, inr,
}
use push_be.Prelude.Dict.{
  Dict, get, get-delete, weight_at, total-delete, Distinct, Distinct-delete, Listed, Listed-self,
  Listed-delete,
}
use push_be.Gateway.Lease.{
  Key, Lease, Isolate, key_eq, release_lease, forget, release_where, release_expired, clear_lease,
}
use push_be.Gateway.Lease.Totals.{held, outstanding, returned, returned-append}

release_lease-amount : (b : Key) (l : Lease) → returned b (release_lease l).1 ≡ held b l
unfolding release_lease
release_lease-amount b l = ground arith

outstanding-forget :
    (b k : Key) (l : Lease) (s : Isolate)
    → Distinct s.leases
    → get k s.leases ≡ some l
    → outstanding b (forget k s) + held b l ≡ outstanding b s
unfolding outstanding
outstanding-forget b k l s d e =
    omega (arith, total-delete (held b) k s.leases d, ap (weight_at (held b)) e)

pub outstanding-release_where :
    (b : Key) (due : Key → Lease → Bool) (es : Dict Key Lease) (s : Isolate)
    → Distinct s.leases
    → Distinct es
    → Listed es s.leases
    → outstanding b (release_where due es s).0 + returned b (release_where due es s).1
      ≡ outstanding b s
unfolding release_where
outstanding-release_where b due [] s d de h = omega arith
outstanding-release_where b due ((k, l) ∷ es) s d (f, de) (g, h) =
    let released =
      outstanding-release_where b due es (forget k s) (Distinct-delete k s.leases d) de
        (Listed-delete k es s.leases f h) in
    let kept = outstanding-release_where b due es s d de h in
    let freed = outstanding-forget b k l s d g in
    let amount = release_lease-amount b l in
    let both = returned-append b (release_lease l).1 (release_where due es (forget k s)).1 in
    ground (arith, released, kept, freed, amount, both)

pub outstanding-release_expired :
    (b : Key) (now : ℕ) (keep : Option Key) (s : Isolate)
    → Distinct s.leases
    → outstanding b (release_expired now keep s).0 + returned b (release_expired now keep s).1
      ≡ outstanding b s
unfolding release_expired
outstanding-release_expired b now keep s d =
    outstanding-release_where b _ s.leases s d d (Listed-self s.leases d)

pub outstanding-clear_lease :
    (b : Key) (hash : String) (s : Isolate)
    → Distinct s.leases
    → outstanding b (clear_lease hash s).0 + returned b (clear_lease hash s).1 ≡ outstanding b s
unfolding clear_lease
outstanding-clear_lease b hash s d =
    outstanding-release_where b _ s.leases s d d (Listed-self s.leases d)

-- A sweep only takes leases away.
pub get-release_where :
    (due : Key → Lease → Bool) (es : Dict Key Lease) (key : Key) (s : Isolate) (l : Lease)
    → get key (release_where due es s).0.leases ≡ some l
    → get key s.leases ≡ some l
unfolding release_where
get-release_where due [] key s l h = h
get-release_where due ((k, m) ∷ es) key s l h = elim (Bool-cases (due k m)) [
  | inl e ↦
      let before = get-release_where due es key (forget k s) l (ground arith) in
      ground (arith, get-delete k key s.leases)
  | inr e ↦ get-release_where due es key s l (ground arith)
]

pub get-release_expired :
    (now : ℕ) (keep : Option Key) (key : Key) (s : Isolate) (l : Lease)
    → get key (release_expired now keep s).0.leases ≡ some l
    → get key s.leases ≡ some l
unfolding release_expired
get-release_expired now keep key s l h = get-release_where _ s.leases key s l h
