-- ===== src/Gateway/Window.antt =====
-- `allow` of services/gateway/src/middleware/ratelimit.ts: the sliding window of one isolate, used
-- where the shared counter cannot be reached.
pub mod Bounds
use push_be.Prelude.{
  ℕ, ◌+◌, Bool, true, false, Option, none, some, List, [], ◌∷◌, ◌++◌, ltb, leb, if◌then◌else◌,
  length, any_of,
}
use push_be.Prelude.Dict.{Dict, get, set}
use push_be.Gateway.Lease.{Key, key_eq, Isolate}

abbrev pub or_empty : Option (List ℕ) → List ℕ
or_empty none = []
or_empty (some times) = times

-- `t > now - windowMs`, with nothing below zero.
abbrev pub in_window : ℕ → ℕ → ℕ → Bool
in_window window_ms now t = ltb now (t + window_ms)

unfoldable pub recent : ℕ → ℕ → List ℕ → List ℕ
recent window_ms now [] = []
recent window_ms now (t ∷ times) =
    let kept = recent window_ms now times in if in_window window_ms now t then t ∷ kept else kept

-- Names whose times have all left the window are dropped when the map has grown large.
unfoldable pub purge : ℕ → ℕ → Dict Key (List ℕ) → Dict Key (List ℕ)
purge window_ms now [] = []
purge window_ms now ((name, times) ∷ m) =
    let others = purge window_ms now m in
    if any_of (in_window window_ms now) times then (name, times) ∷ others else others

-- `allow`: the sliding window of this isolate, used where the shared counter cannot be reached.
unfoldable pub allow : Key → (limit window_ms now : ℕ) → Isolate → Isolate × Bool
allow key limit window_ms now s =
    let kept = recent window_ms now (or_empty (get key s.hits)) in
    if leb limit (length kept)
    then (record s { hits = set key kept s.hits }, false)
    else let others = if ltb 10000 (length s.hits) then purge window_ms now s.hits else s.hits in
      (record s { hits = set key (kept ++ now ∷ []) others }, true)
