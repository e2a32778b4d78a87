-- ===== src/Gateway/Quota.antt =====
-- One user's requests in one minute, over all isolates and the Python worker, as steps that
-- interleave: the leases of Lease, `tokenContext` of Auth and the shared row of Counter.
-- A request whose claim fails is decided by the isolate alone, and is counted apart. Hits on the way between an isolate and the row are counted apart, since each statement of
-- services/gateway/src/middleware runs at some time after the isolate has decided on it, or fails.
pub mod Hits
pub mod Safety
use push_be.Prelude.{
  ℕ, ◌+◌, ◌-◌, ◌≤◌, String, ◌≡◌, Bool, true, false, Option, none, some, List, [], ◌∷◌, ◌++◌,
  if◌then◌else◌,
}
use push_be.Gateway.Counter.{bump, claim, give_back}
use push_be.Gateway.Counter.Laws.{count, granted_of}
use push_be.Gateway.Lease.{
  Key, Isolate, read_cap, accept_grant, fire_timer, settle_timer, release_expired, clear_lease,
}
use push_be.Gateway.Lease.Totals.{outstanding, returned}
use push_be.Gateway.Window.{allow}
use push_be.Gateway.Auth.{
  State, TokenCtx, fail, dev, cached, revalidate, claims, window_of, with_hash,
}
use push_be.Gateway.Auth.Accounts.{Owned}

-- `asked` is what claims in flight are to give back, `granted` what answers in flight carry,
-- `returning` what RELEASE_SQL in flight is to subtract. `served` and `python` count the requests
-- that the gateway, by the shared count, and the Python worker have let through; `unshared` counts those
-- that an isolate lets through on its own count, after its claim has failed.
pub record Sys (U : Type 0) : Type 0 where
  pub row : Option ℕ
  pub isolates : List (State U)
  pub asked : ℕ
  pub granted : ℕ
  pub returning : ℕ
  pub served : ℕ
  pub python : ℕ
  pub unshared : ℕ

abbrev pub admitted : {U : Type 0} → TokenCtx U → ℕ
admitted (fail status code) = 0
admitted dev = 0
admitted (cached key user) = 1
admitted (revalidate key) = 1
admitted (claims key batch release) = 0

abbrev pub asks : {U : Type 0} → TokenCtx U → ℕ
asks (claims key batch release) = release
asks _ = 0

-- 1 where the test passed.
abbrev pub one_if : Bool → ℕ
one_if true = 1
one_if false = 0

abbrev pub one_if_some : Option ℕ → ℕ
one_if_some none = 0
one_if_some (some n) = 1

module _ {U : Type 0} (expires_of : U → ℕ) (wait_until : Bool) (limit : ℕ) (bucket : Key) where
  -- `at before s after` is an isolate among the others.
  pub data Step (u v : Sys U) : Type 0 where
    request :
        (before after : List (State U)) (s : State U) (hash : String) (now : ℕ)
        → u.isolates ≡ before ++ s ∷ after
        → Owned bucket (record { kind = "user"; owner = hash; window = window_of now }) s.isolate
        → v ≡ (
            let o = with_hash expires_of wait_until limit hash now s in
            record u {
              isolates = before ++ o.state ∷ after;
              returning = u.returning + returned bucket o.returns;
              asked = u.asked + asks o.ctx;
              served = u.served + admitted o.ctx;
            })
        → Step u v
    claiming :
        (batch release : ℕ)
        → release ≤ u.asked
        → v ≡ (
            let c = claim (read_cap limit) batch release u.row in
            record u { row = c.0; asked = u.asked - release; granted = u.granted + granted_of c.1 })
        → Step u v
    answer :
        (before after : List (State U)) (s : State U) (key : Key) (hits : Option ℕ) (g now : ℕ)
        → u.isolates ≡ before ++ s ∷ after
        → Owned bucket key s.isolate
        → g ≤ u.granted
        → v ≡ (
            let a =
              accept_grant wait_until key hits (some g) (read_cap limit) now bucket s.isolate in
            record u {
              isolates = before ++ record s { isolate = a.0 } ∷ after;
              granted = u.granted - g;
              served = u.served + one_if a.1;
            })
        → Step u v
    fire :
        (before after : List (State U)) (s : State U) (key : Key) (epoch : ℕ)
        → u.isolates ≡ before ++ s ∷ after
        → v ≡ (
            let f = fire_timer key epoch s.isolate in
            record u {
              isolates = before ++ record s { isolate = f.0 } ∷ after;
              returning = u.returning + returned bucket f.1;
            })
        → Step u v
    settle :
        (before after : List (State U)) (s : State U) (same : Bool) (key : Key)
        → u.isolates ≡ before ++ s ∷ after
        → v ≡ record u {
          isolates = before ++ record s { isolate = settle_timer same key s.isolate } ∷ after;
        }
        → Step u v
    -- A request of another user sweeps the leases that are due, and a logout clears a token's.
    sweep :
        (before after : List (State U)) (s : State U) (now : ℕ) (keep : Option Key)
        → u.isolates ≡ before ++ s ∷ after
        → v ≡ (
            let r = release_expired now keep s.isolate in
            record u {
              isolates = before ++ record s { isolate = r.0 } ∷ after;
              returning = u.returning + returned bucket r.1;
            })
        → Step u v
    logout :
        (before after : List (State U)) (s : State U) (hash : String)
        → u.isolates ≡ before ++ s ∷ after
        → v ≡ (
            let r = clear_lease hash s.isolate in
            record u {
              isolates = before ++ record s { isolate = r.0 } ∷ after;
              returning = u.returning + returned bucket r.1;
            })
        → Step u v
    landing :
        (amount : ℕ)
        → amount ≤ u.returning
        → v ≡ record u { row = give_back amount u.row; returning = u.returning - amount }
        → Step u v
    -- A statement that failed, or an answer that was lost.
    losing :
        (a g r : ℕ)
        → v ≡ record u { asked = u.asked - a; granted = u.granted - g; returning = u.returning - r }
        → Step u v
    -- `interpretAuth` without the shared row: the claim has failed (its hits are lost by `losing`), the
    -- token is read by AUTH_SQL, and the isolate's own window decides.
    alone :
        (before after : List (State U)) (s : State U) (window_ms now : ℕ)
        → u.isolates ≡ before ++ s ∷ after
        → v ≡ (
            let a = allow bucket limit window_ms now s.isolate in
            record u {
              isolates = before ++ record s { isolate = a.0 } ∷ after;
              unshared = u.unshared + one_if a.1;
            })
        → Step u v
    -- The Python worker counts its requests on the same row, up to the whole limit.
    bumping :
        v ≡ record u {
          row = (bump limit u.row).0;
          python = u.python + one_if_some (bump limit u.row).1;
        }
        → Step u v

  pub data Reach (u : Sys U) : Sys U → Type 0 where
    here : Reach u u
    next : {v t : Sys U} → Reach u v → Step v t → Reach u t
