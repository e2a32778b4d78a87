-- ===== src/Prelude/Dict.antt =====
-- A JavaScript `Map`: entries in the order of their first insertion, written and deleted by key.
use Prim.Native.Nat.{ℕ, ◌+◌, ◌≤◌}
use mathlib.Core.Path.{◌≡◌, refl, subst, ap, ◌∙◌}
use mathlib.Core.Logic.{◌↔◌, inl, inr}
use mathlib.Core.Bool.{Bool, true, false}
use mathlib.Core.Option.{Option, none, some}
use mathlib.Core.List.{List, [], ◌∷◌, ◌++◌}
use native.Mathlib.Omega.{arith}
use push_be.Prelude.Tests.{if◌then◌else◌, Bool-cases}
use push_be.Prelude.Lists.{length}

pub record Eq {ℓ} (A : Type ℓ) : Type ℓ where
  pub beq : A → A → Bool
  pub beq_iff : (a b : A) → (beq a b ≡ true) ↔ (a ≡ b)

abbrev pub Dict {ℓ κ} : Type ℓ → Type κ → Type (ℓ ⊔ κ)
Dict K V = List (K × V)

-- The weight of the entry of a key.
abbrev pub weight_at {κ} : {V : Type κ} → (V → ℕ) → Option V → ℕ
weight_at w none = 0
weight_at w (some v) = w v

beq_sym {ℓ} : {K : Type ℓ} ⦃e : Eq K⦄ (a b : K) → e.beq a b ≡ false → e.beq b a ≡ false
beq_sym ⦃e⦄ a b h = ground (arith, e.beq_iff a b, e.beq_iff b a)

module _ {ℓ κ} {K : Type ℓ} {V : Type κ} ⦃e : Eq K⦄ where
  unfoldable pub get : K → Dict K V → Option V
  get k [] = none
  get k ((j, v) ∷ m) = if e.beq j k then some v else get k m

  unfoldable pub set : K → V → Dict K V → Dict K V
  set k v [] = (k, v) ∷ []
  set k v ((j, w) ∷ m) = if e.beq j k then (j, v) ∷ m else (j, w) ∷ set k v m

  unfoldable pub delete : K → Dict K V → Dict K V
  delete k [] = []
  delete k ((j, v) ∷ m) = let others = delete k m in if e.beq j k then others else (j, v) ∷ others

  pub get-set :
      (k j : K) (v : V) (m : Dict K V) → get j (set k v m) ≡ (if e.beq k j then some v else get j m)
  unfolding get set
  get-set k j v [] = refl
  get-set k j v ((i, w) ∷ m) =
      ground (arith, get-set k j v m, e.beq_iff i k, e.beq_iff i j, e.beq_iff k j)

  pub get-delete :
      (k j : K) (m : Dict K V) → get j (delete k m) ≡ (if e.beq k j then none else get j m)
  unfolding get delete
  get-delete k j [] = ground arith
  get-delete k j ((i, w) ∷ m) =
      ground (arith, get-delete k j m, e.beq_iff i k, e.beq_iff i j, e.beq_iff k j)

  pub length-delete-le : (k : K) (m : Dict K V) → length (delete k m) ≤ length m
  unfolding delete
  length-delete-le k [] = omega arith
  length-delete-le k ((i, w) ∷ m) = ground (arith, length-delete-le k m)

  -- No key twice.
  abbrev pub Fresh : K → Dict K V → Type 0
  Fresh k [] = Unit
  Fresh k ((j, v) ∷ m) = (e.beq j k ≡ false) × Fresh k m

  abbrev pub Distinct : Dict K V → Type 0
  Distinct [] = Unit
  Distinct ((j, v) ∷ m) = Fresh j m × Distinct m

  pub Fresh-set :
      (k j : K) (v : V) (m : Dict K V) → e.beq k j ≡ false → Fresh j m → Fresh j (set k v m)
  unfolding set
  Fresh-set k j v [] h f = (h, tt)
  Fresh-set k j v ((i, w) ∷ m) h (p, f) = elim (Bool-cases (e.beq i k)) [
    | inl q ↦ rw q (p, f)
    | inr q ↦ rw q (p, Fresh-set k j v m h f)
  ]

  pub Distinct-set : (k : K) (v : V) (m : Dict K V) → Distinct m → Distinct (set k v m)
  unfolding set
  Distinct-set k v [] d = (tt, tt)
  Distinct-set k v ((i, w) ∷ m) (f, d) = elim (Bool-cases (e.beq i k)) [
    | inl q ↦ rw q (f, d)
    | inr q ↦ rw q (Fresh-set k i v m (beq_sym i k q) f, Distinct-set k v m d)
  ]

  pub Fresh-delete : (k j : K) (m : Dict K V) → Fresh j m → Fresh j (delete k m)
  unfolding delete
  Fresh-delete k j [] f = tt
  Fresh-delete k j ((i, w) ∷ m) (p, f) = elim (Bool-cases (e.beq i k)) [
    | inl q ↦ rw q (Fresh-delete k j m f)
    | inr q ↦ rw q (p, Fresh-delete k j m f)
  ]

  pub Distinct-delete : (k : K) (m : Dict K V) → Distinct m → Distinct (delete k m)
  unfolding delete
  Distinct-delete k [] d = tt
  Distinct-delete k ((i, w) ∷ m) (f, d) = elim (Bool-cases (e.beq i k)) [
    | inl q ↦ rw q (Distinct-delete k m d)
    | inr q ↦ rw q (Fresh-delete k i m f, Distinct-delete k m d)
  ]

  -- The entry of a key that is fresh is absent.
  pub get_of_Fresh : (k : K) (m : Dict K V) → Fresh k m → get k m ≡ none
  unfolding get
  get_of_Fresh k [] f = refl
  get_of_Fresh k ((j, v) ∷ m) (p, f) = rw p (get_of_Fresh k m f)

  -- The sum of a weight over the entries.
  unfoldable pub total : (V → ℕ) → Dict K V → ℕ
  total w [] = 0
  total w ((j, v) ∷ m) = w v + total w m

  -- A write moves the total by the difference of the weights.
  pub total-set :
      (w : V → ℕ) (k : K) (v : V) (m : Dict K V)
      → total w (set k v m) + weight_at w (get k m) ≡ total w m + w v
  unfolding total set get
  total-set w k v [] = omega arith
  total-set w k v ((j, u) ∷ m) = ground (arith, total-set w k v m)

  pub total-get-le : (w : V → ℕ) (k : K) (m : Dict K V) → weight_at w (get k m) ≤ total w m
  unfolding total get
  total-get-le w k [] = omega arith
  total-get-le w k ((j, u) ∷ m) = ground (arith, total-get-le w k m)

  pub total-delete :
      (w : V → ℕ) (k : K) (m : Dict K V)
      → Distinct m
      → total w (delete k m) + weight_at w (get k m) ≡ total w m
  unfolding total delete get
  total-delete w k [] d = omega arith
  total-delete w k ((j, u) ∷ m) (f, d) = elim (Bool-cases (e.beq j k)) [
    | inl q ↦ rw q (
        let same = (e.beq_iff j k).0 q in
        let gone = get_of_Fresh k m (subst (λ x. Fresh x m) same f) in
        omega (arith, total-delete w k m d, ap (weight_at w) gone))
    | inr q ↦ rw q (omega (arith, total-delete w k m d))
  ]

  pub total-delete-le : (w : V → ℕ) (k : K) (m : Dict K V) → total w (delete k m) ≤ total w m
  unfolding total delete
  total-delete-le w k [] = omega arith
  total-delete-le w k ((j, u) ∷ m) = ground (arith, total-delete-le w k m)

module _ {ℓ κ} {K : Type ℓ} {V : Type κ} ⦃e : Eq K⦄ where
  -- Every entry of the list is what the map holds at its key.
  abbrev pub Listed : Dict K V → Dict K V → Type κ
  Listed [] m = Unit
  Listed ((k, v) ∷ es) m = (get k m ≡ some v) × Listed es m

  Listed-cons :
      (j : K) (w : V) (es m : Dict K V) → Fresh j es → Listed es m → Listed es ((j, w) ∷ m)
  unfolding get
  Listed-cons j w [] m f h = tt
  Listed-cons j w ((k, v) ∷ es) m (p, f) (g, h) = (rw (beq_sym k j p) g, Listed-cons j w es m f h)

  pub Listed-self : (m : Dict K V) → Distinct m → Listed m m
  unfolding get
  Listed-self [] d = tt
  Listed-self ((k, v) ∷ m) (f, d) =
      (rw ((e.beq_iff k k).1 refl) refl, Listed-cons k v m m f (Listed-self m d))

  pub Listed-delete : (k : K) (es m : Dict K V) → Fresh k es → Listed es m → Listed es (delete k m)
  Listed-delete k [] m f h = tt
  Listed-delete k ((j, v) ∷ es) m (p, f) (g, h) =
      (get-delete k j m ∙ (rw (beq_sym j k p) g), Listed-delete k es m f h)

module _ {ℓ κ} {K : Type ℓ} {V : Type κ} ⦃e : Eq K⦄ where
  pub Fresh_delete_self : (k : K) (m : Dict K V) → Fresh k (delete k m)
  unfolding delete
  Fresh_delete_self k [] = tt
  Fresh_delete_self k ((j, v) ∷ m) = elim (Bool-cases (e.beq j k)) [
    | inl q ↦ rw q (Fresh_delete_self k m)
    | inr q ↦ rw q (q, Fresh_delete_self k m)
  ]

  -- A new key is written behind the others.
  pub set_of_Fresh : (k : K) (v : V) (m : Dict K V) → Fresh k m → set k v m ≡ m ++ (k, v) ∷ []
  unfolding set
  set_of_Fresh k v [] f = refl
  set_of_Fresh k v ((j, w) ∷ m) (p, f) = rw p (ap (λ t. (j, w) ∷ t) (set_of_Fresh k v m f))

  pub get_last : (k : K) (v : V) (m : Dict K V) → Fresh k m → get k (m ++ (k, v) ∷ []) ≡ some v
  unfolding get
  get_last k v [] f = rw ((e.beq_iff k k).1 refl) refl
  get_last k v ((j, w) ∷ m) (p, f) = rw p (get_last k v m f)

  pub Fresh_suffix : (k : K) (m n : Dict K V) → Fresh k (m ++ n) → Fresh k n
  Fresh_suffix k [] n f = f
  Fresh_suffix k ((j, w) ∷ m) n (p, f) = Fresh_suffix k m n f
