-- ===== src/Core/Requests/Runs.antt =====
-- One run of a route: `idempotent` of services/core-api/src/handler.ts.
use push_be.Prelude.{
  ℕ, ◌≤◌, ◌<◌, eq_refl, ◌≡◌, refl, Bool, true, false, ◌||◌, Option, none, some, List, [], ◌∷◌,
  arith, eqb_iff, ltb, leb,
}
use push_be.Core.Requests.{
  Response, Row, Ask, insert_key, run, answer, find, discard, store, replay, without_body, new_row,
  begin, finish,
}
use push_be.Core.Requests.Laws.{Sys, here, has_id, answer-Kept}

discard-absent : (id : ℕ) (t : List Row) → has_id id t ≡ false → discard id t ≡ t
unfolding discard
discard-absent id [] h = refl
discard-absent id (x ∷ t) h =
    let others = discard-absent id t (ground arith) in ground (arith, others)

insert_key-unseen :
    (id now : ℕ) (a : Ask) (t : List Row)
    → find a.user a.path a.key t ≡ none
    → insert_key id now a t ≡ some (new_row id now a ∷ t)
unfolding insert_key
insert_key-unseen id now a t h = rw (insert_key, h) refl

pub begin-unseen :
    (m : List Row → List Row) (id now : ℕ) (ids : List ℕ) (a : Ask) (t : List Row)
    → find a.user a.path a.key t ≡ none
    → begin m (id ∷ ids) now a t ≡ (new_row id now a ∷ t, run id)
unfolding begin
begin-unseen m id now ids a t h =
    let new : insert_key id now a t ≡ some (new_row id now a ∷ t) =
      insert_key-unseen id now a t h in
    rw (begin, new) refl

-- Where the key had no row, a route that throws, or answers with a status that is no success, leaves the
-- table as it was before the request, so that the key can be used again.
pub finish-begin_undone :
    (m : List Row → List Row) (id now : ℕ) (ids : List ℕ) (a : Ask) (saved : Bool)
    (o : Option Response) (t : List Row)
    → find a.user a.path a.key t ≡ none
    → has_id id t ≡ false
    → (elim o [ none ↦ true | some r ↦ ltb r.status 200 || leb 300 r.status ]) ≡ true
    → finish id saved o (begin m (id ∷ ids) now a t).0 ≡ (t, o)
unfolding finish discard
finish-begin_undone m id now ids a saved none t h d f =
    let same = discard-absent id t d in
    let mine = eqb_iff id id in rw (begin-unseen m id now ids a t h) (ground (arith, same, mine))
finish-begin_undone m id now ids a saved (some r) t h d f =
    let same = discard-absent id t d in
    let mine = eqb_iff id id in rw (begin-unseen m id now ids a t h) (ground (arith, same, mine, f))

finish-success :
    (id : ℕ) (r : Response) (t : List Row)
    → 200 ≤ r.status
    → r.status < 300
    → finish id true (some r) t ≡ (store id (without_body r) t, some (without_body r))
unfolding finish
finish-success id r t low high = ground arith

finish-answers :
    (id : ℕ) (saved : Bool) (r : Response) (t : List Row)
    → 200 ≤ r.status
    → r.status < 300
    → (finish id saved (some r) t).1 ≡ some (without_body r)
unfolding finish
finish-answers id saved r t low high = ground arith

-- The row of a run whose answer is stored.
abbrev answered : ℕ → ℕ → Ask → Response → Row
answered id now a r = record (new_row id now a) { response = some r }

find-answered :
    (id now : ℕ) (a : Ask) (r : Response) (t : List Row)
    → find a.user a.path a.key (store id r (new_row id now a ∷ t)) ≡ some (answered id now a r)
unfolding find store
find-answered id now a r t =
    ground (arith, eqb_iff id id, eqb_iff a.user a.user, eq_refl a.path, eq_refl a.key)

-- Where the key had no row, an answer that is a success is given to the client, also where it is not saved;
-- where it is, and no other request comes after it, the same request is then answered from the
-- row, by `replay` of what the client got.
pub begin-finish :
    (m : List Row → List Row) (id now later : ℕ) (ids : List ℕ) (again : ℕ) (ids' : List ℕ)
    (saved : Bool) (a : Ask) (r : Response) (t : List Row)
    → find a.user a.path a.key t ≡ none
    → 200 ≤ r.status
    → r.status < 300
    → ((finish id saved (some r) (begin m (id ∷ ids) now a t).0).1 ≡ some (without_body r))
      × (begin
            (λ d. d)
            (again ∷ ids')
            later
            a
            (finish id true (some r) (begin m (id ∷ ids) now a t).0).0
          ≡ (
            (finish id true (some r) (begin m (id ∷ ids) now a t).0).0,
            answer (replay (without_body r)),
          ))
begin-finish m id now later ids again ids' saved a r t h low high =
    let stored = without_body r in
    let table = store id stored (new_row id now a ∷ t) in
    let first = begin-unseen m id now ids a t h in
    let done : finish id true (some r) (begin m (id ∷ ids) now a t).0 ≡ (table, some stored) =
      rw first (finish-success id r (new_row id now a ∷ t) low high) in
    let quiet : Sys = record { table = table; live = [] } in
    let later_on =
      answer-Kept a (answered id now a stored) stored quiet quiet quiet (λ d. d) again later ids'
        (find-answered id now a stored t, refl) refl refl here here refl in
    (finish-answers id saved r _ low high, rw done later_on)
