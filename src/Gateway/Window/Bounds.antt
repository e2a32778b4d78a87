-- ===== src/Gateway/Window/Bounds.antt =====
-- The times that the window of `allow` keeps, in services/gateway/src/middleware/ratelimit.ts.
use push_be.Prelude.{
  ℕ, ◌≤◌, ◌≡◌, some, List, [], ◌∷◌, ◌++◌, arith, ltb, leb, if◌then◌else◌, length, length-append,
  Bool-cases, inl, inr,
}
use push_be.Prelude.Dict.{Dict, get, set, get-set}
use push_be.Gateway.Lease.{Key, key_eq, key_beq_iff, Isolate}
use push_be.Gateway.Window.{or_empty, recent, purge, allow}

length-recent-le :
    (window_ms now : ℕ) (times : List ℕ) → length (recent window_ms now times) ≤ length times
unfolding recent
length-recent-le window_ms now [] = omega arith
length-recent-le window_ms now (t ∷ times) =
    let later = length-recent-le window_ms now times in ground (arith, later)

get-set_self :
    (key : Key) (times : List ℕ) (m : Dict Key (List ℕ)) → get key (set key times m) ≡ some times
get-set_self key times m =
    let same = key_beq_iff key key in ground (arith, get-set key key times m, same)

-- If an isolate remembers no more times of a name than its limit, this is so after every further
-- request of the name as well, let through or refused.
pub length-allow-le :
    (key : Key) (limit window_ms now : ℕ) (s : Isolate)
    → length (or_empty (get key s.hits)) ≤ limit
    → length (or_empty (get key (allow key limit window_ms now s).0.hits)) ≤ limit
unfolding allow
length-allow-le key limit window_ms now s h =
    let old = or_empty (get key s.hits) in
    let kept = recent window_ms now old in
    let fewer = length-recent-le window_ms now old in
    elim (Bool-cases (leb limit (length kept))) [
      | inl e ↦ rw (allow, e, get-set_self key kept s.hits) (omega (arith, fewer))
      | inr e ↦
          let longer = length-append kept (now ∷ []) in
          let others = if ltb 10000 (length s.hits) then purge window_ms now s.hits else s.hits in
          rw (allow, e, get-set_self key (kept ++ now ∷ []) others) (ground (arith, e, longer))
    ]
