-- ===== src/Core/Pages/Laws.antt =====
-- A list in the order of its keys, and the rows after a cursor: services/core-api/src/page.ts.
use push_be.Prelude.{
  ℕ, zero, suc, ◌≤◌, ◌≡◌, refl, Bool, true, false, List, [], ◌∷◌, ◌++◌, arith, length, All,
  Bool-cases, inl, inr,
}
use push_be.Core.Pages.{RowKey, older, take, filter, last_of}

pub older_trans : (j k l : RowKey) → older j k ≡ true → older k l ≡ true → older j l ≡ true
older_trans j k l h g = ground arith

older_irrefl : (k : RowKey) → older k k ≡ false
older_irrefl k = ground arith

older_asym : (j k : RowKey) → older j k ≡ true → older k j ≡ false
older_asym j k h = ground arith

module _ {ℓ} {A : Type ℓ} (key : A → RowKey) where
  -- Every row is older than those before it.
  unfoldable pub Descending : List A → Type 0
  Descending [] = Unit
  Descending (r ∷ rows) = All (λ s. older (key s) (key r) ≡ true) rows × Descending rows

  -- What is left of a list after its first rows.
  unfoldable pub drop : ℕ → List A → List A
  drop zero rows = rows
  drop (suc n) [] = []
  drop (suc n) (r ∷ rows) = drop n rows

  All-filter : (P : A → Type 0) (f : A → Bool) (rows : List A) → All P rows → All P (filter f rows)
  unfolding filter
  All-filter P f [] h = tt
  All-filter P f (r ∷ rows) (p, h) = elim (Bool-cases (f r)) [
    | inl e ↦ rw e (p, All-filter P f rows h)
    | inr e ↦ rw e (All-filter P f rows h)
  ]

  pub Descending-filter :
      (f : A → Bool) (rows : List A) → Descending rows → Descending (filter f rows)
  unfolding filter Descending
  Descending-filter f [] h = tt
  Descending-filter f (r ∷ rows) (p, h) = elim (Bool-cases (f r)) [
    | inl e ↦ rw e (All-filter _ f rows p, Descending-filter f rows h)
    | inr e ↦ rw e (Descending-filter f rows h)
  ]

  filter-All : (f : A → Bool) (rows : List A) → All (λ s. f s ≡ true) rows → filter f rows ≡ rows
  unfolding filter
  filter-All f [] h = refl
  filter-All f (r ∷ rows) (p, h) = rw (p, filter-All f rows h) refl

  pub last_older :
      (k : RowKey) (r : A) (rows : List A) (n : ℕ)
      → older (key r) k ≡ true
      → All (λ s. older (key s) k ≡ true) rows
      → older (key (last_of r (take n rows))) k ≡ true
  unfolding last_of take
  last_older k r rows zero p h = p
  last_older k r [] (suc n) p h = p
  last_older k r (s ∷ rows) (suc n) p (q, h) = last_older k s rows n q h

  -- The rows that come after the last of the first ones.
  pub after_last :
      (n : ℕ) (r : A) (rows : List A)
      → Descending (r ∷ rows)
      → filter (λ s. older (key s) (key (last_of r (take n rows)))) (r ∷ rows) ≡ drop n rows
  unfolding filter Descending drop last_of take
  after_last zero r rows (p, h) = rw (older_irrefl (key r), filter-All _ rows p) refl
  after_last (suc n) r [] (p, h) = rw (older_irrefl (key r)) refl
  after_last (suc n) r (s ∷ rows) ((p, ps), h) =
      let e =
        older_asym (key (last_of s (take n rows))) (key r) (last_older (key r) s rows n p ps) in
      rw (e, after_last n s rows h) refl

  -- A later cursor leaves the same rows where an earlier one was used before.
  pub filter_twice :
      (f g : A → Bool) (rows : List A)
      → ((r : A) → f r ≡ true → g r ≡ true)
      → filter f (filter g rows) ≡ filter f rows
  unfolding filter
  filter_twice f g [] h = refl
  filter_twice f g (r ∷ rows) h = elim (Bool-cases (g r)) [
    | inl e ↦ rw (e, filter_twice f g rows h) refl
    | inr e ↦ elim (Bool-cases (f r)) [
      | inl k ↦ absurd (ground (arith, h r k))
      | inr k ↦ rw (e, k) (filter_twice f g rows h)
    ]
  ]

  pub All-older-filter :
      (k : RowKey) (rows : List A)
      → All (λ s. older (key s) k ≡ true) (filter (λ s. older (key s) k) rows)
  unfolding filter
  All-older-filter k [] = tt
  All-older-filter k (r ∷ rows) = elim (Bool-cases (older (key r) k)) [
    | inl e ↦ rw e (e, All-older-filter k rows)
    | inr e ↦ rw e (All-older-filter k rows)
  ]

  pub take-drop : (n : ℕ) (rows : List A) → take n rows ++ drop n rows ≡ rows
  unfolding take drop
  take-drop zero rows = refl
  take-drop (suc n) [] = refl
  take-drop (suc n) (r ∷ rows) = rw (take-drop n rows) refl

  pub length-drop-le : (n : ℕ) (rows : List A) → length (drop n rows) ≤ length rows
  unfolding drop
  length-drop-le zero rows = omega arith
  length-drop-le (suc n) [] = omega arith
  length-drop-le (suc n) (r ∷ rows) = omega (arith, length-drop-le n rows)
