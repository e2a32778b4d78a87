-- ===== src/Core/Requests/Examples.antt =====
-- The theorems on idempotent requests at concrete inputs.
use push_be.Prelude.{◌≡◌, ◌≢◌, refl, true, false, none, some, List, [], ◌∷◌, arith}
use push_be.Prelude.Dict.{set}
use push_be.Core.Requests.{
  Response, Row, Ask, answer, exhausted, find, discard, replay, set_headers, without_body, new_row,
  insert_key, begin, finish,
}
use push_be.Core.Requests.Laws.{Sys, Reach, here, next, inserting, finishing, answer-Kept}
use push_be.Core.Requests.Runs.{finish-begin_undone, begin-finish}
use push_be.Core.Requests.Keys.{IsUnique, begin-IsUnique}

abbrev apply : Ask
apply = record { user = 7; path = "/api/v1/postings"; key = "k"; hash = "h" }

abbrev created : Response
created = record { status = 201; headers = []; body = "{}" }

abbrev stored_row : Row
stored_row = record (new_row 1 5 apply) { response = some created }

abbrev stored_once : Sys
stored_once = record { table = stored_row ∷ []; live = [] }

abbrev other : Ask
other = record apply { key = "other" }

-- Another request begins after the answer is stored.
abbrev also_other : Sys
also_other = record { table = new_row 2 6 other ∷ stored_row ∷ []; live = 2 ∷ [] }

-- And ends with no answer while the first key is asked for again.
abbrev other_ends : List Row → List Row
other_ends t = discard 2 t

abbrev other_over : Sys
other_over = record { table = stored_row ∷ []; live = [] }

run_requests : Unit {0}
unfolding begin insert_key find discard finish
run_requests = tt

finds_it : find 7 "/api/v1/postings" "k" stored_once.table ≡ some stored_row
unfolding run_requests
finds_it = refl

other_begins : Reach stored_once also_other
unfolding run_requests
other_begins = next here (inserting 2 6 other refl refl)

ends_then : Reach also_other other_over
unfolding run_requests
ends_then = next here (finishing [] [] 2 true none refl refl)

over_table : other_over.table ≡ other_ends also_other.table
unfolding run_requests
over_table = refl

nothing_yet : find 7 "/api/v1/postings" "k" [] ≡ none
unfolding run_requests
nothing_yet = refl

answer-Kept_example :
    begin other_ends (3 ∷ []) 9 apply also_other.table
    ≡ (other_ends also_other.table, answer (replay created))
answer-Kept_example =
    answer-Kept apply stored_row created stored_once also_other other_over other_ends 3 9 []
      (finds_it, refl) refl refl other_begins ends_then over_table

finish-begin_undone_example :
    finish 1 true (some (record created { status = 409 })) (begin (λ d. d) (1 ∷ []) 5 apply []).0
    ≡ ([], some (record created { status = 409 }))
finish-begin_undone_example =
    finish-begin_undone (λ d. d) 1 5 [] apply true (some (record created { status = 409 })) []
      nothing_yet refl refl

begin-finish_example :
    ((finish 1 false (some created) (begin (λ d. d) (1 ∷ []) 5 apply []).0).1
      ≡ some (without_body created))
    × (begin
          (λ d. d)
          (2 ∷ [])
          9
          apply
          (finish 1 true (some created) (begin (λ d. d) (1 ∷ []) 5 apply []).0).0
        ≡ (
          (finish 1 true (some created) (begin (λ d. d) (1 ∷ []) 5 apply []).0).0,
          answer (replay (without_body created)),
        ))
begin-finish_example =
    begin-finish (λ d. d) 1 5 9 [] 2 [] false apply created [] nothing_yet (omega arith)
      (omega arith)

-- A run that was lost six minutes ago.
abbrev lost : List Row
lost = new_row 1 5 apply ∷ []

lost-IsUnique : IsUnique lost
unfolding run_requests
lost-IsUnique = (refl, tt)

begin-IsUnique_example :
    ((begin (λ d. d) (2 ∷ 3 ∷ []) 360005 apply lost).1 ≢ exhausted)
    × IsUnique (begin (λ d. d) (2 ∷ 3 ∷ []) 360005 apply lost).0
begin-IsUnique_example =
    begin-IsUnique (λ d. d) 2 3 360005 [] apply lost (λ d h. h) (λ d r h s. h) lost-IsUnique

run_replay : Unit {0}
unfolding replay set_headers set
run_replay = tt

-- A header that is stored twice is replayed once, and a content type is added.
last_value_stays :
    (replay (record created { headers = ("vary", "a") ∷ ("vary", "b") ∷ [] })).headers
    ≡ ("vary", "b") ∷ ("content-type", "application/json; charset=utf-8") ∷ []
unfolding run_replay
last_value_stays = refl
