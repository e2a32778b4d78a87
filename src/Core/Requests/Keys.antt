-- ===== src/Core/Requests/Keys.antt =====
-- The rows of a key, over the attempts of a request: `idempotent` of services/core-api/src/handler.ts.
use push_be.Prelude.{
  ℕ, String, ◌≡◌, ◌≢◌, refl, true, false, ◌&&◌, none, some, List, [], ◌∷◌, arith, eqb, eqb_iff,
  Bool-cases, if◌then◌else◌, Option-cases, inl, inr,
}
use push_be.Core.Requests.{
  Row, Ask, Begun, missing, exhausted, is_pending, is_stale, is_at, find, discard, answer_of, begin,
}
use push_be.Core.Requests.Laws.{insert_key-seen, is_at_sound}
use push_be.Core.Requests.Runs.{begin-unseen}

-- What follows an insert that has met a row.
unfoldable retry : (List Row → List Row) → List ℕ → ℕ → Ask → List Row → List Row × Begun
retry m ids now a seen = elim (find a.user a.path a.key seen) [
  | none ↦ (seen, missing)
  | some r ↦
      let again = begin m ids now a (m (discard r.id (m seen))) in
      if is_stale now r then again else (seen, answer_of a r)
]

begin-seen :
    (m : List Row → List Row) (id now : ℕ) (ids : List ℕ) (a : Ask) (t : List Row) (r : Row)
    → find a.user a.path a.key t ≡ some r
    → begin m (id ∷ ids) now a t ≡ retry m ids now a (m t)
unfolding begin retry
begin-seen m id now ids a t r h =
    let there = insert_key-seen id now a t r h in rw (begin, there) refl

-- No two rows have the key of one request.
abbrev pub IsUnique : List Row → Type 0
IsUnique [] = Unit
IsUnique (r ∷ t) = (find r.user r.path r.key t ≡ none) × IsUnique t

module _ (user : ℕ) (path key : String) where
  find-discard-none :
      (id : ℕ) (t : List Row)
      → find user path key t ≡ none
      → find user path key (discard id t) ≡ none
  unfolding find discard
  find-discard-none id [] h = h
  find-discard-none id (x ∷ t) h = elim (Bool-cases (is_at user path key x)) [
    | inl e ↦ ground (arith, e)
    | inr e ↦ let later = find-discard-none id t (ground (arith, e)) in ground (arith, e, later)
  ]

  find-discard_self :
      (t : List Row) (r : Row)
      → IsUnique t
      → find user path key t ≡ some r
      → is_pending r ≡ true
      → find user path key (discard r.id t) ≡ none
  unfolding find discard
  find-discard_self [] r u h p = cc
  find-discard_self (x ∷ t) r (n, u) h p = elim (Bool-cases (is_at user path key x)) [
    | inl e ↦
        let (same_user, same_path, same_key) = is_at_sound user path key x e in
        let alone : find user path key t ≡ none = cc in
        let later = find-discard-none r.id t alone in
        let here : some x ≡ some r = ground (arith, e, h) in
        ground (arith, here, later, eqb_iff r.id r.id, p)
    | inr e ↦ let later = find-discard_self t r u (ground (arith, e)) p in ground (arith, e, later)
  ]

discard-IsUnique : (id : ℕ) (t : List Row) → IsUnique t → IsUnique (discard id t)
unfolding discard
discard-IsUnique id [] u = u
discard-IsUnique id (x ∷ t) (n, u) = elim (Bool-cases (eqb x.id id && is_pending x)) [
  | inl e ↦ rw (discard, e) (discard-IsUnique id t u)
  | inr e ↦ rw (discard, e) (find-discard-none x.user x.path x.key id t n, discard-IsUnique id t u)
]

answer_of-ends : (a : Ask) (r : Row) → answer_of a r ≢ exhausted
answer_of-ends a r h = elim (Option-cases r.response) [
  | inl e ↦ absurd (ground arith)
  | inr (x, e) ↦ absurd (ground arith)
]

discard-found :
    (user : ℕ) (path key : String) (id : ℕ) (t : List Row) (r : Row)
    → IsUnique t
    → find user path key (discard id t) ≡ some r
    → find user path key t ≡ some r
unfolding find discard
discard-found user path key id [] r u h = h
discard-found user path key id (x ∷ t) r (n, u) h =
    let later = discard-found user path key id t r u in
    elim (Bool-cases (eqb x.id id && is_pending x)) [
      | inr e ↦ elim (Bool-cases (is_at user path key x)) [
        | inl k ↦ ground (arith, e, k, h)
        | inr k ↦ ground (arith, k, later (ground (arith, e, k, h)))
      ]
      | inl e ↦
          let below = later (ground (arith, e, h)) in
          elim (Bool-cases (is_at user path key x)) [
            | inr k ↦ ground (arith, k, below)
            | inl k ↦
                let (same_user, same_path, same_key) = is_at_sound user path key x k in absurd (cc)
          ]
    ]

-- A stale row that is deleted is not found stale again.
stale_once :
    (m : List Row → List Row) (now : ℕ) (a : Ask) (seen : List Row) (r q : Row)
    → ((d : List Row) → IsUnique d → IsUnique (m d))
    → ((d : List Row) (x : Row)
        → find a.user a.path a.key (m d) ≡ some x
        → is_stale now x ≡ true
        → find a.user a.path a.key d ≡ some x)
    → IsUnique seen
    → find a.user a.path a.key seen ≡ some r
    → is_stale now r ≡ true
    → find a.user a.path a.key (m (m (discard r.id (m seen)))) ≡ some q
    → is_stale now q ≡ false
stale_once m now a seen r q keeps old u h s k = elim (Bool-cases (is_stale now q)) [
  | inr e ↦ e
  | inl e ↦
      let once = old (discard r.id (m seen)) q (old (m (discard r.id (m seen))) q k e) e in
      let before = discard-found a.user a.path a.key r.id (m seen) q (keeps seen u) once in
      let same : r ≡ q = ground (arith, h, old seen q before e) in
      let there : find a.user a.path a.key (m seen) ≡ some r = rw same before in
      let gone =
        find-discard_self a.user a.path a.key (m seen) r (keeps seen u) there (ground arith) in
      absurd (ground (arith, gone, once))
]

-- The second attempt meets no stale row.
second-IsUnique :
    (m : List Row → List Row) (now : ℕ) (ids : List ℕ) (a : Ask) (seen : List Row) (r : Row)
    → ((d : List Row) → IsUnique d → IsUnique (m d))
    → ((d : List Row) (x : Row)
        → find a.user a.path a.key (m d) ≡ some x
        → is_stale now x ≡ true
        → find a.user a.path a.key d ≡ some x)
    → IsUnique seen
    → find a.user a.path a.key seen ≡ some r
    → is_stale now r ≡ true
    → ((retry m ids now a (m (m (discard r.id (m seen))))).1 ≢ exhausted)
      × IsUnique (retry m ids now a (m (m (discard r.id (m seen))))).0
unfolding retry
second-IsUnique m now ids a seen r keeps old u h s =
    let last = m (m (discard r.id (m seen))) in
    let last_unique : IsUnique last =
      keeps _ (keeps _ (discard-IsUnique r.id (m seen) (keeps seen u))) in
    elim (Option-cases (find a.user a.path a.key last)) [
      | inl e ↦ rw (retry, e) (λ k. cc, last_unique)
      | inr (q, e) ↦
          let fresh = stale_once m now a seen r q keeps old u h s e in
          rw (retry, e, fresh) (answer_of-ends a q, last_unique)
    ]

retry-IsUnique :
    (m : List Row → List Row) (id now : ℕ) (ids : List ℕ) (a : Ask) (seen : List Row)
    → ((d : List Row) → IsUnique d → IsUnique (m d))
    → ((d : List Row) (r : Row)
        → find a.user a.path a.key (m d) ≡ some r
        → is_stale now r ≡ true
        → find a.user a.path a.key d ≡ some r)
    → IsUnique seen
    → ((retry m (id ∷ ids) now a seen).1 ≢ exhausted) × IsUnique (retry m (id ∷ ids) now a seen).0
unfolding retry
retry-IsUnique m id now ids a seen keeps old u =
    elim (Option-cases (find a.user a.path a.key seen)) [
      | inl e ↦ rw (retry, e) (λ h. cc, u)
      | inr (r, e) ↦ elim (Bool-cases (is_stale now r)) [
        | inr s ↦ rw (retry, e, s) (answer_of-ends a r, u)
        | inl s ↦
            let left = m (discard r.id (m seen)) in
            let left_unique : IsUnique left =
              keeps _ (discard-IsUnique r.id (m seen) (keeps seen u)) in
            elim (Option-cases (find a.user a.path a.key left)) [
              | inl f ↦
                  rw (retry, e, s)
                    (rw (begin-unseen m id now ids a left f) (λ h. cc, (f, left_unique)))
              | inr (x, f) ↦
                  rw (retry, e, s)
                    (rw (begin-seen m id now ids a left x f)
                      (second-IsUnique m now ids a seen r keeps old u e s))
            ]
      ]
    ]

-- Where a key has one row at most, two ids are enough for any request: it never runs out of attempts,
-- also where it takes the place of a run that was lost, and a key has one row at most afterwards. The
-- requests in between keep a key at one row, and leave no stale row of this key that was not there before.
pub begin-IsUnique :
    (m : List Row → List Row) (id id' now : ℕ) (ids : List ℕ) (a : Ask) (t : List Row)
    → ((d : List Row) → IsUnique d → IsUnique (m d))
    → ((d : List Row) (r : Row)
        → find a.user a.path a.key (m d) ≡ some r
        → is_stale now r ≡ true
        → find a.user a.path a.key d ≡ some r)
    → IsUnique t
    → ((begin m (id ∷ id' ∷ ids) now a t).1 ≢ exhausted)
      × IsUnique (begin m (id ∷ id' ∷ ids) now a t).0
begin-IsUnique m id id' now ids a t keeps old u = elim (Option-cases (find a.user a.path a.key t)) [
  | inl e ↦ rw (begin-unseen m id now (id' ∷ ids) a t e) (λ h. cc, (e, u))
  | inr (r, e) ↦
      rw (begin-seen m id now (id' ∷ ids) a t r e)
        (retry-IsUnique m id' now ids a (m t) keeps old (keeps t u))
]
