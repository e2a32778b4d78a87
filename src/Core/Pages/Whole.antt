-- ===== src/Core/Pages/Whole.antt =====
-- Reading a list of services/core-api/src/page.ts page by page, by the cursor of each page.
use push_be.Prelude.{
  ℕ, zero, suc, ◌≤◌, ◌≡◌, refl, sym, ap, subst, ◌∙◌, Bool, true, false, Option, none, some, List,
  [], ◌∷◌, ◌++◌, append-nil, arith, ltb, length, All, if◌then◌else◌, Bool-cases, inl, inr,
}
use push_be.Core.Pages.{
  RowKey, older, take, filter, last_of, cursor_of, page_result, after, list_page,
}
use push_be.Core.Pages.Laws.{
  older_trans, Descending, Descending-filter, drop, after_last, filter_twice, All-older-filter,
  last_older, take-drop, length-drop-le,
}

module _ {A : Type 0} (key : A → RowKey) where
  length-take-le : (n : ℕ) (rows : List A) → length (take n rows) ≤ n
  unfolding take
  length-take-le zero rows = omega arith
  length-take-le (suc n) [] = omega arith
  length-take-le (suc n) (r ∷ rows) = omega (arith, length-take-le n rows)

  -- One row more than a page shows whether there is more.
  length-take : (n : ℕ) (rows : List A) → ltb n (length (take (suc n) rows)) ≡ ltb n (length rows)
  unfolding take
  length-take n [] = refl
  length-take zero (r ∷ rows) = ground arith
  length-take (suc n) (r ∷ rows) = ground (arith, length-take n rows)

  take-take : (n : ℕ) (rows : List A) → take n (take (suc n) rows) ≡ take n rows
  unfolding take
  take-take zero rows = refl
  take-take (suc n) [] = refl
  take-take (suc n) (r ∷ rows) = rw (take-take n rows) refl

  take_short : (n : ℕ) (rows : List A) → ltb n (length rows) ≡ false → take n rows ≡ rows
  unfolding take
  take_short zero [] h = refl
  take_short zero (r ∷ rows) h = absurd (ground arith)
  take_short (suc n) [] h = refl
  take_short (suc n) (r ∷ rows) h = rw (take_short n rows (ground arith)) refl

  take_short_more : (n : ℕ) (rows : List A) → ltb n (length rows) ≡ false → take (suc n) rows ≡ rows
  take_short_more n rows h = take_short (suc n) rows (ground arith)

  abbrev pub one_page : ℕ → List A → List A × Option RowKey
  one_page limit rest =
      if ltb limit (length rest)
      then (take limit rest, cursor_of key (take limit rest))
      else (rest, none)

  page_result-take :
      (limit : ℕ) (rest : List A)
      → page_result key limit (take (suc limit) rest) ≡ one_page limit rest
  unfolding page_result
  page_result-take limit rest = elim (Bool-cases (ltb limit (length rest))) [
    | inl e ↦ rw (page_result, length-take limit rest, e, take-take limit rest) refl
    | inr e ↦ rw (page_result, length-take limit rest, e, take_short_more limit rest e) refl
  ]

  after_cursor :
      (cursor : Option RowKey) (whole : List A) (n : ℕ) (r : A) (rows : List A)
      → after key cursor whole ≡ r ∷ rows
      → after key (some (key (last_of r (take n rows)))) whole
        ≡ after key (some (key (last_of r (take n rows)))) (r ∷ rows)
  unfolding after
  after_cursor none whole n r rows h = ap (filter _) h
  after_cursor (some c) whole n r rows h =
      let last = key (last_of r (take n rows)) in
      let (p, ps) : All (λ s. older (key s) c ≡ true) (r ∷ rows) =
        subst (All (λ s. older (key s) c ≡ true)) h (All-older-filter key c whole) in
      let in_order = last_older key c r rows n p ps in
      sym (
        filter_twice key (λ s. older (key s) last) (λ s. older (key s) c) whole
          (λ s e. older_trans (key s) last c e in_order))
      ∙ ap (filter (λ s. older (key s) last)) h

  Descending-after :
      (cursor : Option RowKey) (whole : List A)
      → Descending key whole
      → Descending key (after key cursor whole)
  unfolding after
  Descending-after none whole h = h
  Descending-after (some c) whole h = Descending-filter key _ whole h

  -- After a full page come the rows that it left out.
  after_page :
      (cursor : Option RowKey) (whole : List A) (n : ℕ) (r : A) (rows : List A)
      → Descending key whole
      → after key cursor whole ≡ r ∷ rows
      → after key (some (key (last_of r (take n rows)))) whole ≡ drop key n rows
  unfolding after
  after_page cursor whole n r rows d h =
      after_cursor cursor whole n r rows h
      ∙ after_last key n r rows (subst (Descending key) h (Descending-after cursor whole d))

  -- The list as a client reads it: each page with the cursor of the one before, at most `fuel` pages.
  unfoldable pub read_all : ℕ → (A → Bool) → ℕ → Option RowKey → List A → List A
  read_all zero keep limit cursor rows = []
  read_all (suc fuel) keep limit cursor rows =
      let page = list_page key keep limit cursor rows in
      page.0 ++ elim page.1 [ none ↦ [] | some c ↦ read_all fuel keep limit (some c) rows ]

  list_page-rest :
      (keep : A → Bool) (limit : ℕ) (cursor : Option RowKey) (rows rest : List A)
      → after key cursor (filter keep rows) ≡ rest
      → list_page key keep limit cursor rows ≡ one_page limit rest
  unfolding list_page
  list_page-rest keep limit cursor rows rest h =
      ap (λ t. page_result key limit (take (suc limit) t)) h ∙ page_result-take limit rest

  read_rest :
      (fuel : ℕ) (keep : A → Bool) (n : ℕ) (cursor : Option RowKey) (rows rest : List A)
      → Descending key (filter keep rows)
      → after key cursor (filter keep rows) ≡ rest
      → length rest ≤ fuel
      → read_all fuel keep (suc n) cursor rows ≡ rest
  unfolding read_all take drop
  read_rest zero keep n cursor rows [] d h k = refl
  read_rest zero keep n cursor rows (r ∷ rest) d h k = absurd (omega arith)
  read_rest (suc fuel) keep n cursor rows [] d h k =
      let fits : ltb (suc n) 0 ≡ false = ground arith in
      rw (list_page-rest keep (suc n) cursor rows [] h, fits) refl
  read_rest (suc fuel) keep n cursor rows (r ∷ rest) d h k =
      let page = list_page-rest keep (suc n) cursor rows (r ∷ rest) h in
      elim (Bool-cases (ltb (suc n) (length (r ∷ rest)))) [
        | inr e ↦ rw (page, e) (append-nil (r ∷ rest))
        | inl e ↦
            let more =
              read_rest fuel keep n (some (key (last_of r (take n rest)))) rows (drop key n rest) d
                (after_page cursor (filter keep rows) n r rest d h)
                (omega (arith, length-drop-le key n rest)) in
            rw (page, e, more) (ap (λ t. r ∷ t) (take-drop key n rest))
      ]

-- Reading a list page by page, each page by the cursor of the one before, gives every row that
-- the conditions keep, once and in order, for any page size but 0; one page for each row of the list is
-- enough.
pub read_all-filter :
    {A : Type 0} (key : A → RowKey) (keep : A → Bool) (limit : ℕ) (rows : List A)
    → 1 ≤ limit
    → Descending key rows
    → read_all key (length (filter keep rows)) keep limit none rows ≡ filter keep rows
unfolding after
read_all-filter key keep zero rows l d = absurd (omega arith)
read_all-filter key keep (suc n) rows l d =
    read_rest key (length (filter keep rows)) keep n none rows (filter keep rows)
      (Descending-filter key keep rows d) refl (omega arith)
