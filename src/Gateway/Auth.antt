-- ===== src/Gateway/Auth.antt =====
-- `tokenContext` of services/gateway/src/middleware/auth.ts: the token of a request, and the hit that
-- it takes from the isolate's lease or asks of the shared counter.
-- `digest` is `sha256Hex`, `none` where it throws. `U` is what the cache keeps of a user, and
-- `expires_of` its `expiresAtMs`. Responses are their status and code.
pub mod Accounts
use Prim.Native.String.{len, slice}
use text.Mathlib.Text.{starts_with}
use push_be.Prelude.{
  ℕ, ◌/◌, String, ◌==◌, Bool, true, false, not, ◌&&◌, ◌||◌, Option, none, some, List, [], ltb, leb,
  if◌then◌else◌,
}
use push_be.Prelude.Dict.{get, set}
use push_be.Gateway.Cache.{Cache, get_auth, drop_auth}
use push_be.Gateway.Lease.{
  Key, Lease, key_eq, Isolate, read_cap, remaining_of, release_expired, spend_lease, next_batch,
}

pub record Env : Type 0 where
  pub development : Bool
  pub dev_auth_token : String

pub record State (U : Type 0) : Type 0 where
  pub isolate : Isolate
  pub auth : Cache U

pub data TokenCtx (U : Type 0) : Type 0 where
  fail : (status : ℕ) (code : String) → TokenCtx U
  dev : TokenCtx U
  cached : Key → U → TokenCtx U
  revalidate : Key → TokenCtx U
  claims : Key → (batch release : ℕ) → TokenCtx U

-- The new state, the hits that go back to the counter, and the outcome.
pub record Outcome (U : Type 0) : Type 0 where
  pub state : State U
  pub returns : List (Key × ℕ)
  pub ctx : TokenCtx U

abbrev pub window_of : ℕ → ℕ
window_of now = now / 60000

-- `authz.startsWith("Bearer ")` and `authz.slice(7)`
unfoldable pub bearer_of : String → Option String
bearer_of authz = if starts_with authz "Bearer " then some (slice authz 7 (len authz)) else none

-- `secretEquals`; the outer `none` is a digest that throws.
unfoldable pub secret_equals : (String → Option String) → String → String → Option Bool
secret_equals digest got want = if got == "" || want == "" then some false else elim (digest got) [
  | none ↦ none
  | some a ↦ elim (digest want) [ none ↦ none | some b ↦ some (a == b) ]
]

-- `!!lease && now >= lease.expiresAt`
abbrev pub is_expired : ℕ → Option Lease → Bool
is_expired now none = false
is_expired now (some l) = leb l.expires_at now

-- The hits of an expired lease leave it for the claim of this request.
unfoldable pub take_expired : Key → ℕ → Isolate → Isolate × ℕ
take_expired key now s = elim (get key s.leases) [
  | none ↦ (s, 0)
  | some l ↦
      if leb l.expires_at now
      then (
        record s { leases = set key (record l { remaining = 0; spent = false }) s.leases },
        l.remaining,
      )
      else (s, 0)
]

-- What the isolate has seen of the counter: `known !== undefined && known >= cap`
abbrev known_full : Option ℕ → ℕ → Bool
known_full none cap = false
known_full (some known) cap = leb cap known

module _ {U : Type 0} (expires_of : U → ℕ) (wait_until : Bool) (limit : ℕ) where
  -- From the cache lookup on, for a lease with `left` hits and `release` hits to give back.
  unfoldable pub with_lease : Key → (now left release : ℕ) → State U → State U × TokenCtx U
  with_lease key now left release s =
      let (auth, hit) = get_auth key.owner now s.auth in
      let s = record s { auth = auth } in
      let spending = record s { isolate = spend_lease wait_until key now s.isolate } in
      let claiming = claims key (next_batch (get key s.isolate.leases) now release) release in
      elim hit [
        | some user ↦
            if ltb 0 left
            then if ltb (expires_of user) now
              then (record s { auth = drop_auth key.owner s.auth }, fail 401 "TOKEN_EXPIRED")
              else (spending, cached key user)
            else (s, claiming)
        | none ↦ if ltb 0 left then (spending, revalidate key) else (s, claiming)
      ]

  -- The part of `tokenContext` for a token with the hash.
  unfoldable pub with_hash : String → ℕ → State U → Outcome U
  with_hash hash now s =
      let key : Key = record { kind = "user"; owner = hash; window = window_of now } in
      let swept = release_expired now (some key) s.isolate in
      let expired = is_expired now (get key swept.0.leases) in
      let taken = take_expired key now swept.0 in
      let left = if expired then 0 else remaining_of (get key swept.0.leases) in
      let s = record s { isolate = taken.0 } in
      if known_full (get key taken.0.remote_hits) (read_cap limit) && (leb left 0 && leb taken.1 0)
      then record { state = s; returns = swept.1; ctx = fail 429 "RATE_LIMITED" }
      else let next = with_lease key now left taken.1 s in
        record { state = next.0; returns = swept.1; ctx = next.1 }

  unfoldable pub token_context : (String → Option String) → Env → String → ℕ → State U → Outcome U
  token_context digest env authz now s = elim (bearer_of authz) [
    | none ↦ record { state = s; returns = []; ctx = fail 401 "UNAUTHENTICATED" }
    | some token ↦
        elim (if env.development
          then secret_equals digest token env.dev_auth_token
          else some false) [
            | none ↦ record { state = s; returns = []; ctx = fail 500 "INTERNAL" }
            | some true ↦ record { state = s; returns = []; ctx = dev }
            | some false ↦ elim (digest token) [
              | none ↦ record { state = s; returns = []; ctx = fail 500 "INTERNAL" }
              | some hash ↦ with_hash hash now s
            ]
          ]
  ]
