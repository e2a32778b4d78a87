-- ===== src/Gateway/Lease.antt =====
-- The isolate's leases on the shared counter: services/gateway/src/middleware/ratelimit.ts.
-- A function that returns hits to the counter gives the amounts as a list beside the new state; the
-- statement itself is Counter's `give_back`. A timer that is armed is a record in `timers`, and
-- fires by `fire_timer`.
pub mod State
pub mod Totals
pub mod Returns
pub mod Keys
use push_be.Prelude.{
  ℕ, suc, ◌+◌, ◌-◌, ◌*◌, min, max, String, Bool, true, false, not, ◌&&◌, ◌||◌, Option, none, some,
  List, [], ◌∷◌, ◌++◌, ltb, leb, eqb, if◌then◌else◌, ◌==◌,
}
use push_be.Prelude.Dict.{Dict, get, set, delete}
pub use State.{Key, Lease, Timer, Isolate, key_beq_iff}
unfoldable pub use State.{
  key_beq, key_eq, max_lease, lease_ttl_ms, release_delay_ms, read_cap, near_cap, worth_returning,
  release_delay, release_lease,
}

abbrev pub forget : Key → Isolate → Isolate
forget key s = record s { leases = delete key s.leases; remote_hits = delete key s.remote_hits }

-- `armRelease`; the first argument is whether the runtime has `waitUntil`.
unfoldable pub arm_release : Bool → Key → Isolate → Isolate
arm_release wait_until key s = if not wait_until then s else elim (get key s.leases) [
  | none ↦ s
  | some l ↦ if not (worth_returning l) then s else record s {
    leases = set key (record l { timer = suc l.timer }) s.leases;
    timers = record { key = key; epoch = suc l.timer; delay = release_delay l } ∷ s.timers;
  }
]

-- A timer after its sleep: an older timer, or one whose lease is gone, leaves the pool untouched.
unfoldable pub fire_timer : Key → ℕ → Isolate → Isolate × List (Key × ℕ)
fire_timer key epoch s = elim (get key s.leases) [
  | none ↦ (s, [])
  | some l ↦
      if not (eqb l.timer epoch) || not (worth_returning l)
      then (s, [])
      else (record s { leases = set key (release_lease l).0 s.leases }, (release_lease l).1)
]

-- What the timer does after its statement; `same` is whether the map still holds the same object.
unfoldable pub settle_timer : Bool → Key → Isolate → Isolate
settle_timer same key s = elim (get key s.leases) [
  | none ↦ s
  | some l ↦ if same && leb l.remaining 0 then forget key s else s
]

-- `rememberHits`
unfoldable pub remember_hits : Key → Option ℕ → ℕ → Isolate → Isolate
remember_hits bucket hits limit s = elim hits [
  | none ↦ record s { remote_hits = set bucket limit s.remote_hits }
  | some n ↦ record s { remote_hits = set bucket n s.remote_hits }
]

abbrev pub timer_of : Option Lease → ℕ
timer_of none = 0
timer_of (some l) = l.timer

abbrev pub remaining_of : Option Lease → ℕ
remaining_of none = 0
remaining_of (some l) = l.remaining

-- The lease that a grant leaves: what an earlier grant left, and the new hits less the one that
-- this request takes.
abbrev pub granted_lease : Option Lease → ℕ → ℕ → ℕ → ℕ → Key → Lease
granted_lease prev hits granted limit now bucket = record {
  remaining = remaining_of prev + (granted - 1);
  size = granted;
  expires_at = now + lease_ttl_ms;
  spent = eqb (remaining_of prev + (granted - 1)) 0;
  bucket = bucket;
  timer = timer_of prev;
  hits = hits;
  cap = limit;
}

abbrev pub granted_count : Option ℕ → ℕ
granted_count none = 1
granted_count (some n) = n

-- `acceptGrant`; `hits` is none where the row is full, `granted` is 1 where the row has no such column.
unfoldable pub accept_grant :
    Bool → Key → (hits granted : Option ℕ) (limit now : ℕ) → Key → Isolate → Isolate × Bool
accept_grant wait_until key none granted limit now bucket s =
    let s = remember_hits key none limit s in (record s { leases = delete key s.leases }, false)
accept_grant wait_until key (some hits) granted limit now bucket s =
    let s = remember_hits key (some hits) limit s in
    let count = granted_count granted in
    if ltb limit hits
    then (record s { leases = delete key s.leases }, false)
    else if leb count 0
    then (
      record s { remote_hits = set key limit s.remote_hits; leases = delete key s.leases },
      false,
    )
    else let lease = granted_lease (get key s.leases) hits count limit now bucket in
      let s = record s { leases = set key lease s.leases } in
      let s = if ltb 0 lease.remaining then arm_release wait_until key s else s in
      (
        (if leb limit hits && leb lease.remaining 0
            then record s { remote_hits = set key limit s.remote_hits }
            else s),
        true,
      )

-- `spendLease`
unfoldable pub spend_lease : Bool → Key → ℕ → Isolate → Isolate
spend_lease wait_until key now s = elim (get key s.leases) [
  | none ↦ s
  | some l ↦
      if leb l.remaining 0
      then s
      else let l = record l { remaining = l.remaining - 1; expires_at = now + lease_ttl_ms } in
        if eqb l.remaining 0
        then record s { leases = set key (record l { spent = true }) s.leases }
        else arm_release wait_until key (record s { leases = set key l s.leases })
]

-- `nextBatch`
unfoldable pub next_batch : Option Lease → ℕ → ℕ → ℕ
next_batch none now release = 1
next_batch (some l) now release =
    if ltb 0 release
    then 1
    else if l.spent && (leb l.remaining 0 && ltb now l.expires_at)
    then min max_lease (max 1 l.size * 2)
    else 1

-- The leases that `releaseExpired` returns; `keep` is the key of the request that runs it.
abbrev is_due : ℕ → Option Key → Key → Lease → Bool
is_due now none key l = ltb 0 l.remaining && leb l.expires_at now
is_due now (some keep) key l =
    not (key_beq key keep)
    && (ltb 0 l.remaining && (not (eqb key.window keep.window) || leb l.expires_at now))

-- The leases that pass a test, released one by one and taken out of both maps.
unfoldable pub release_where :
    (Key → Lease → Bool) → Dict Key Lease → Isolate → Isolate × List (Key × ℕ)
release_where due [] s = (s, [])
release_where due ((key, l) ∷ more) s =
    let released = release_where due more (forget key s) in
    let kept = release_where due more s in
    if due key l then (released.0, (release_lease l).1 ++ released.1) else kept

-- `releaseExpired`
unfoldable pub release_expired : ℕ → Option Key → Isolate → Isolate × List (Key × ℕ)
release_expired now keep s = release_where (is_due now keep) s.leases s

-- `clearLease`, for the token with the hash
unfoldable pub clear_lease : String → Isolate → Isolate × List (Key × ℕ)
clear_lease hash s = release_where (λ key l. key.kind == "user" && key.owner == hash) s.leases s
