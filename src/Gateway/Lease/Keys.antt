-- ===== src/Gateway/Lease/Keys.antt =====
-- The leases of an isolate as a map, in services/gateway/src/middleware/ratelimit.ts.
use push_be.Prelude.{ℕ, String, Bool, [], ◌∷◌, Option, none, some, arith, Bool-cases, inl, inr}
use push_be.Prelude.Dict.{Dict, Distinct, Distinct-set, Distinct-delete}
use push_be.Gateway.Lease.{
  Key, Lease, Isolate, key_eq, arm_release, fire_timer, settle_timer, remember_hits, accept_grant,
  spend_lease, release_where, release_expired, clear_lease, forget,
}

abbrev pub IsMap : Isolate → Type 0
IsMap s = Distinct s.leases

pub arm_release-IsMap : (w : Bool) (k : Key) (s : Isolate) → IsMap s → IsMap (arm_release w k s)
unfolding arm_release
arm_release-IsMap w k s h = grind (arith, Distinct-set)

pub fire_timer-IsMap :
    (k : Key) (epoch : ℕ) (s : Isolate) → IsMap s → IsMap (fire_timer k epoch s).0
unfolding fire_timer
fire_timer-IsMap k epoch s h = grind (arith, Distinct-set)

pub settle_timer-IsMap :
    (same : Bool) (k : Key) (s : Isolate) → IsMap s → IsMap (settle_timer same k s)
unfolding settle_timer
settle_timer-IsMap same k s h = grind (arith, Distinct-delete)

pub spend_lease-IsMap :
    (w : Bool) (k : Key) (now : ℕ) (s : Isolate) → IsMap s → IsMap (spend_lease w k now s)
unfolding spend_lease
spend_lease-IsMap w k now s h = grind (arith, Distinct-set, arm_release-IsMap)

pub release_where-IsMap :
    (due : Key → Lease → Bool) (es : Dict Key Lease) (s : Isolate)
    → IsMap s
    → IsMap (release_where due es s).0
unfolding release_where
release_where-IsMap due [] s h = h
release_where-IsMap due ((k, l) ∷ es) s h = elim (Bool-cases (due k l)) [
  | inl e ↦ rw e (release_where-IsMap due es (forget k s) (Distinct-delete k s.leases h))
  | inr e ↦ rw e (release_where-IsMap due es s h)
]

pub accept_grant-IsMap :
    (w : Bool) (k : Key) (hits granted : Option ℕ) (limit now : ℕ) (b : Key) (s : Isolate)
    → IsMap s
    → IsMap (accept_grant w k hits granted limit now b s).0
unfolding accept_grant remember_hits
accept_grant-IsMap w k none granted limit now b s h = Distinct-delete k s.leases h
accept_grant-IsMap w k (some hits) granted limit now b s h =
    grind (arith, Distinct-set, Distinct-delete, arm_release-IsMap)

pub release_expired-IsMap :
    (now : ℕ) (keep : Option Key) (s : Isolate) → IsMap s → IsMap (release_expired now keep s).0
unfolding release_expired
release_expired-IsMap now keep s h = release_where-IsMap _ s.leases s h

pub clear_lease-IsMap : (hash : String) (s : Isolate) → IsMap s → IsMap (clear_lease hash s).0
unfolding clear_lease
clear_lease-IsMap hash s h = release_where-IsMap _ s.leases s h
