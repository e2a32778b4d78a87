-- ===== src/Core/Pages.antt =====
-- services/core-api/src/page.ts: the pages of a list, newest first. A row is kept with its key, which is
-- the pair of created_at and id; the text of a cursor stands for the key that it encodes, and `keep` for
-- the conditions of the caller. A table is the list of its rows in the order of the statement, created_at
-- and then id descending, since no other order of the rows can be seen.
pub mod Laws
pub mod Whole
pub mod Limits
mod Examples
use Prim.Native.Char.{code}
use Prim.Native.String
use push_be.Prelude.{
  ℕ, zero, suc, ◌+◌, ◌*◌, ◌-◌, min, String, Bool, true, false, not, ◌&&◌, ◌||◌, Option, none, some,
  List, [], ◌∷◌, ltb, leb, eqb, length, if◌then◌else◌,
}

abbrev pub RowKey : Type 0
RowKey = ℕ × ℕ

-- The key of row `k` is less than `c`: `(created_at, id) < ($1, $2)`
abbrev pub older : RowKey → RowKey → Bool
older k c = ltb k.0 c.0 || eqb k.0 c.0 && ltb k.1 c.1

abbrev pub is_digit : ℕ → Bool
is_digit c = leb b'0' c && leb c b'9'

-- `^\d*$`, and its number
unfoldable pub digits : ℕ → String → Option ℕ
digits n String.[] = some n
digits n (String.◌∷◌ c s) =
    let others = digits (n * 10 + (code c - b'0')) s in if is_digit (code c) then others else none

-- `limit` of `pageOf`; none is the error.
unfoldable pub page_limit : Option String → Option ℕ
page_limit none = some 50
page_limit (some String.[]) = some 50
page_limit (some (String.◌∷◌ c s)) =
    if eqb (code c) b'0'
    then none
    else elim (digits 0 (String.◌∷◌ c s)) [ none ↦ none | some n ↦ some (min n 100) ]

module _ {ℓ} {A : Type ℓ} where
  unfoldable pub take : ℕ → List A → List A
  take zero rows = []
  take (suc n) [] = []
  take (suc n) (r ∷ rows) = r ∷ take n rows

  unfoldable pub filter : (A → Bool) → List A → List A
  filter f [] = []
  filter f (r ∷ rows) = let others = filter f rows in if f r then r ∷ others else others

  unfoldable pub last_of : A → List A → A
  last_of r [] = r
  last_of r (s ∷ rows) = last_of s rows

  abbrev pub cursor_of : (A → RowKey) → List A → Option RowKey
  cursor_of key [] = none
  cursor_of key (r ∷ rows) = some (key (last_of r rows))

  -- The items of a page with the cursor of the next one, which is there where there is more.
  unfoldable pub page_result : (A → RowKey) → ℕ → List A → List A × Option RowKey
  page_result key limit items =
      if ltb limit (length items)
      then (take limit items, cursor_of key (take limit items))
      else (items, none)

  unfoldable pub after : (A → RowKey) → Option RowKey → List A → List A
  after key none rows = rows
  after key (some c) rows = filter (λ r. older (key r) c) rows

  unfoldable pub list_page :
      (A → RowKey) → (A → Bool) → ℕ → Option RowKey → List A → List A × Option RowKey
  list_page key keep limit cursor rows =
      page_result key limit (take (suc limit) (after key cursor (filter keep rows)))
