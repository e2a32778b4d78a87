-- ===== src/Core/Requests/Laws.antt =====
-- The steps of all requests with a key, and the answers they store: `idempotent` of
-- services/core-api/src/handler.ts.
use push_be.Prelude.{
  ℕ, String, eq_iff, ◌≡◌, refl, sym, ap, ◌∙◌, Bool, true, false, ◌||◌, Option, none, some, List, [],
  ◌∷◌, ◌++◌, arith, eqb, eqb_iff, any_of, Bool-cases, Option-cases, inl, inr,
}
use push_be.Core.Requests.{
  Response, Row, Ask, answer, insert_key, is_pending, is_at, find, discard, store, without_body,
  replay, new_row, begin, finish,
}

-- The requests that are at one time in the hands of a route, by the ids of their rows.
pub record Sys : Type 0 where
  pub table : List Row
  pub live : List ℕ

abbrev pub has_id : ℕ → List Row → Bool
has_id id t = any_of (λ r. eqb r.id id) t

-- The statements of `begin` and `finish`, at any times: the insert of a key under a new id, the deletion of
-- a row that some request has read as stale, and what ends the run of a route.
pub data Step (u v : Sys) : Type 0 where
  inserting :
      (id now : ℕ) (a : Ask)
      → has_id id u.table ≡ false
      → v ≡ (elim (insert_key id now a u.table) [
        | none ↦ u
        | some t ↦ record u { table = t; live = id ∷ u.live }
      ])
      → Step u v
  dropping : (id : ℕ) → v ≡ record u { table = discard id u.table } → Step u v
  finishing :
      (before after : List ℕ) (id : ℕ) (saved : Bool) (a : Option Response)
      → u.live ≡ before ++ id ∷ after
      → v ≡ record u { table = (finish id saved a u.table).0; live = before ++ after }
      → Step u v

pub data Reach (u : Sys) : Sys → Type 0 where
  here : Reach u u
  next : {v w : Sys} → Reach u v → Step v w → Reach u w

module _ (user : ℕ) (path key : String) where
  find-discard :
      (id : ℕ) (t : List Row) (r : Row)
      → find user path key t ≡ some r
      → is_pending r ≡ false
      → find user path key (discard id t) ≡ some r
  unfolding find discard
  find-discard id [] r h p = h
  find-discard id (x ∷ t) r h p = elim (Bool-cases (is_at user path key x)) [
    | inl e ↦ ground (arith, e)
    | inr e ↦ let later = find-discard id t r (ground (arith, e)) p in ground (arith, e, later)
  ]

  find-store :
      (id : ℕ) (a : Response) (t : List Row) (r : Row)
      → find user path key t ≡ some r
      → eqb r.id id ≡ false
      → find user path key (store id a t) ≡ some r
  unfolding find store
  find-store id a [] r h d = h
  find-store id a (x ∷ t) r h d = elim (Bool-cases (is_at user path key x)) [
    | inl e ↦ ground (arith, e)
    | inr e ↦ let later = find-store id a t r (ground (arith, e)) d in ground (arith, e, later)
  ]

  has_id_of_find : (t : List Row) (r : Row) → find user path key t ≡ some r → has_id r.id t ≡ true
  unfolding find
  has_id_of_find [] r h = cc
  has_id_of_find (x ∷ t) r h = elim (Bool-cases (is_at user path key x)) [
    | inl e ↦ ground (arith, e, eqb_iff r.id r.id)
    | inr e ↦ let later = has_id_of_find t r (ground (arith, e)) in ground (arith, later)
  ]

  pub is_at_sound :
      (r : Row) → is_at user path key r ≡ true → (r.user ≡ user) × (r.path ≡ path) × (r.key ≡ key)
  is_at_sound r e = ground (arith, eqb_iff r.user user, eq_iff r.path path, eq_iff r.key key)

  find-new_row :
      (id now : ℕ) (b : Ask) (t : List Row) (r : Row)
      → find user path key t ≡ some r
      → find b.user b.path b.key t ≡ none
      → find user path key (new_row id now b ∷ t) ≡ some r
  unfolding find
  find-new_row id now b t r h n = elim (Bool-cases (is_at user path key (new_row id now b))) [
    | inl e ↦ let (u, p, k) = is_at_sound (new_row id now b) e in cc
    | inr e ↦ ground (arith, e)
  ]

  find-insert_key :
      (id now : ℕ) (b : Ask) (t d : List Row) (r : Row)
      → find user path key t ≡ some r
      → insert_key id now b t ≡ some d
      → find user path key d ≡ some r
  unfolding insert_key
  find-insert_key id now b t d r h i = elim (Option-cases (find b.user b.path b.key t)) [
    | inl e ↦
        let same : new_row id now b ∷ t ≡ d = ground (arith, e, i) in
        rw (← same) (find-new_row id now b t r h e)
    | inr (x, e) ↦ absurd (ground (arith, e, i))
  ]

  find-finish :
      (id : ℕ) (saved : Bool) (a : Option Response) (t : List Row) (r : Row)
      → find user path key t ≡ some r
      → is_pending r ≡ false
      → eqb r.id id ≡ false
      → find user path key (finish id saved a t).0 ≡ some r
  unfolding finish
  find-finish id saved none t r h p d = find-discard id t r h p
  find-finish id saved (some a) t r h p d =
      let dropped = find-discard id t r h p in
      let written = find-store id (without_body a) t r h d in ground (arith, dropped, written)

  -- The row that the key finds, whose run is not in flight.
  abbrev pub Kept : Row → Sys → Type 0
  Kept r u = (find user path key u.table ≡ some r) × (any_of (eqb r.id) u.live ≡ false)

other_id :
    (mine id : ℕ) (t : List Row) → has_id mine t ≡ true → has_id id t ≡ false → eqb mine id ≡ false
other_id mine id t h f = elim (Bool-cases (eqb mine id)) [
  | inl e ↦ let same : mine ≡ id = ground (arith, eqb_iff mine id) in cc
  | inr e ↦ e
]

any_of-append : (p : ℕ → Bool) (xs ys : List ℕ) → any_of p (xs ++ ys) ≡ (any_of p xs || any_of p ys)
any_of-append p [] ys = refl
any_of-append p (x ∷ xs) ys = ground (arith, any_of-append p xs ys)

Step-Kept :
    (user : ℕ) (path key : String) (r : Row) (u v : Sys)
    → is_pending r ≡ false
    → Kept user path key r u
    → Step u v
    → Kept user path key r v
Step-Kept user path key r u v p (h, idle) (inserting id now a fresh e) =
    let other = other_id r.id id u.table (has_id_of_find user path key u.table r h) fresh in
    elim (Option-cases (insert_key id now a u.table)) [
      | inl b ↦ rw (e, b) (h, idle)
      | inr (d, b) ↦
          rw (e, b)
            (find-insert_key user path key id now a u.table d r h b, ground (arith, other, idle))
    ]
Step-Kept user path key r u v p (h, idle) (dropping id e) =
    rw e (find-discard user path key id u.table r h p, idle)
Step-Kept user path key r u v p (h, idle) (finishing before after id saved a l e) =
    let whole = any_of-append (eqb r.id) before (id ∷ after) in
    let left = any_of-append (eqb r.id) before after in
    let now_idle : any_of (eqb r.id) (before ++ id ∷ after) ≡ false =
      ap (any_of (eqb r.id)) (sym l) ∙ idle in
    let other : eqb r.id id ≡ false = ground (arith, whole, now_idle) in
    rw e (
      find-finish user path key id saved a u.table r h p other,
      ground (arith, whole, left, now_idle),
    )

Reach-Kept :
    (user : ℕ) (path key : String) (r : Row) (u v : Sys)
    → is_pending r ≡ false
    → Kept user path key r u
    → Reach u v
    → Kept user path key r v
Reach-Kept user path key r u v p k here = k
Reach-Kept user path key r u v p k (next {v = w} before s) =
    Step-Kept user path key r w v p (Reach-Kept user path key r u w p k before) s

pub insert_key-seen :
    (id now : ℕ) (a : Ask) (t : List Row) (r : Row)
    → find a.user a.path a.key t ≡ some r
    → insert_key id now a t ≡ none
unfolding insert_key
insert_key-seen id now a t r h = rw (insert_key, h) refl

-- Once a key's answer is stored and its run is over, the same request is given that answer at every
-- later time, whatever statements of other requests run in the meantime in any order, also between its
-- own; it calls no route, and the table is as the others have left it.
pub answer-Kept :
    (a : Ask) (r : Row) (stored : Response) (u v w : Sys) (meanwhile : List Row → List Row)
    (id now : ℕ) (ids : List ℕ)
    → Kept a.user a.path a.key r u
    → r.response ≡ some stored
    → r.hash ≡ a.hash
    → Reach u v
    → Reach v w
    → w.table ≡ meanwhile v.table
    → begin meanwhile (id ∷ ids) now a v.table ≡ (meanwhile v.table, answer (replay stored))
unfolding begin
answer-Kept a r stored u v w meanwhile id now ids k e h reach more same =
    let settled : is_pending r ≡ false = ground (arith, e) in
    let kept = Reach-Kept a.user a.path a.key r u v settled k reach in
    let later = Reach-Kept a.user a.path a.key r v w settled kept more in
    let found : find a.user a.path a.key (meanwhile v.table) ≡ some r = rw (← same) later.0 in
    let there = insert_key-seen id now a v.table r kept.0 in
    rw (begin, there, found) (ground (arith, e, h, settled, eq_iff r.hash a.hash))
