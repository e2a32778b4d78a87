-- ===== src/Gateway/Lease/State.antt =====
-- What an isolate remembers of the shared counter, and the decisions on one lease:
-- services/gateway/src/middleware/ratelimit.ts. A cache key `kind:owner:window` is a record.
use push_be.Prelude.{
  ℕ, ◌-◌, ◌*◌, ◌/◌, max, String, ◌≡◌, ◌↔◌, Bool, true, false, ◌&&◌, ◌||◌, List, [], ◌∷◌, ltb, leb,
  eqb, eqb_iff, if◌then◌else◌, arith, ◌==◌, eq_iff,
}
use push_be.Prelude.Dict.{Eq, Dict}

pub record Key : Type 0 where
  pub kind : String
  pub owner : String
  pub window : ℕ

abbrev pub key_beq : Key → Key → Bool
key_beq a b = a.kind == b.kind && (a.owner == b.owner && eqb a.window b.window)

pub key_beq_iff : (a b : Key) → (key_beq a b ≡ true) ↔ (a ≡ b)
key_beq_iff a b =
    ground (arith, eq_iff a.kind b.kind, eq_iff a.owner b.owner, eqb_iff a.window b.window)

instance abbrev pub key_eq : Eq Key
key_eq = record { beq = key_beq; beq_iff = key_beq_iff }

pub record Lease : Type 0 where
  pub remaining : ℕ
  pub size : ℕ
  pub expires_at : ℕ
  pub spent : Bool
  pub bucket : Key
  pub timer : ℕ
  pub hits : ℕ
  pub cap : ℕ

pub record Timer : Type 0 where
  pub key : Key
  pub epoch : ℕ
  pub delay : ℕ

pub record Isolate : Type 0 where
  pub hits : Dict Key (List ℕ)
  pub remote_hits : Dict Key ℕ
  pub leases : Dict Key Lease
  pub timers : List Timer

abbrev pub max_lease : ℕ
max_lease = 8

abbrev pub lease_ttl_ms : ℕ
lease_ttl_ms = 5000

abbrev pub release_delay_ms : ℕ
release_delay_ms = 250

-- Reads stop this far under the shared cap.
unfoldable pub read_cap : ℕ → ℕ
read_cap limit = if ltb limit 10 then limit else limit - limit / 10

-- A room below zero is below 16 as zero is.
unfoldable pub near_cap : Lease → Bool
near_cap l = leb (l.cap - l.cap / 8) l.hits || ltb (l.cap - l.hits) (max l.size 1 * 16)

unfoldable pub worth_returning : Lease → Bool
worth_returning l =
    if leb l.remaining 0
    then false
    else if leb l.remaining 1 && ltb l.hits (l.cap / 4)
    then false
    else true

unfoldable pub release_delay : Lease → ℕ
unfolding near_cap
release_delay l =
    if (leb (l.size - 1) l.remaining || leb l.size (l.remaining * 2)) && near_cap l
    then 0
    else release_delay_ms

-- `releaseLease`: the unused hits leave the lease before the statement that returns them runs.
unfoldable pub release_lease : Lease → Lease × List (Key × ℕ)
release_lease l =
    if leb l.remaining 0
    then (l, [])
    else (record l { remaining = 0; spent = false }, (l.bucket, l.remaining) ∷ [])
