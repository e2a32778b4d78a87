-- ===== src/Core/Pages/Examples.antt =====
-- The theorems on pages at a concrete list.
use push_be.Prelude.{◌≡◌, refl, Bool, not, length, none, some, List, [], ◌∷◌, arith, eqb}
use push_be.Core.Pages.{
  RowKey, take, filter, last_of, page_result, after, list_page, page_limit, digits,
}
use push_be.Core.Pages.Laws.{Descending}
use push_be.Core.Pages.Whole.{read_all, read_all-filter}

abbrev rows : List RowKey
rows = (9, 1) ∷ (7, 5) ∷ (7, 2) ∷ (3, 8) ∷ (1, 1) ∷ []

abbrev key : RowKey → RowKey
key k = k

abbrev kept : RowKey → Bool
kept k = not (eqb k.0 3)

run_pages : Unit {0}
unfolding list_page page_result after filter take last_of read_all Descending page_limit digits
run_pages = tt

two_pages : read_all key 2 kept 2 none rows ≡ (9, 1) ∷ (7, 5) ∷ (7, 2) ∷ (1, 1) ∷ []
unfolding run_pages
two_pages = refl

in_order : Descending key rows
unfolding run_pages
in_order = (
  (refl, (refl, (refl, (refl, tt)))),
  ((refl, (refl, (refl, tt))), ((refl, (refl, tt)), ((refl, tt), (tt, tt)))),
)

read_all-filter_example :
    read_all key (length (filter kept rows)) kept 2 none rows ≡ filter kept rows
read_all-filter_example = read_all-filter key kept 2 rows (omega arith) in_order

limit_20 : page_limit (some "20") ≡ some 20
unfolding run_pages
limit_20 = refl
