-- ===== src/Core/Pages/Limits.antt =====
-- The limit of a page: `pageOf` of services/core-api/src/page.ts.
use Prim.Native.Char.{code}
use push_be.Prelude.{
  ℕ, ◌+◌, ◌*◌, ◌-◌, ◌≤◌, min, String, ◌≡◌, false, Option, none, some, arith, eqb, leb, leb→le,
  Bool-cases, Option-cases, and-eq-true, inl, inr,
}
use push_be.Core.Pages.{is_digit, digits, page_limit}

digits-le : (n m : ℕ) (s : String) → digits n s ≡ some m → n ≤ m
unfolding digits
digits-le n m String.[] h = let e : n ≡ m = ground arith in omega (arith, e)
digits-le n m (String.◌∷◌ c s) h = elim (Bool-cases (is_digit (code c))) [
  | inr e ↦ absurd (ground (arith, e))
  | inl e ↦
      let k : digits (n * 10 + (code c - b'0')) s ≡ some m = ground (arith, e) in
      omega (arith, digits-le (n * 10 + (code c - b'0')) m s k)
]

digits_pos :
    (m : ℕ) (c : Prim.Native.Char.Char) (s : String)
    → eqb (code c) b'0' ≡ false
    → digits 0 (String.◌∷◌ c s) ≡ some m
    → 1 ≤ m
unfolding digits
digits_pos m c s z h = elim (Bool-cases (is_digit (code c))) [
  | inr e ↦ absurd (ground (arith, e))
  | inl e ↦
      let k : digits (0 * 10 + (code c - b'0')) s ≡ some m = ground (arith, e) in
      let first : b'0' ≤ code c = leb→le _ _ (and-eq-true (leb b'0' (code c)) _ e).0 in
      let other : eqb b'0' (code c) ≡ false = ground (arith, z) in
      let more : 1 ≤ code c - b'0' = ground (arith, first, z) in
      omega (arith, more, digits-le (0 * 10 + (code c - b'0')) m s k)
]

-- The limit of a page that is not refused is between 1 and 100, whatever its text is.
page_limit-bounds : (raw : Option String) (n : ℕ) → page_limit raw ≡ some n → (1 ≤ n) × (n ≤ 100)
unfolding page_limit
page_limit-bounds none n h = let e : 50 ≡ n = ground arith in (omega (arith, e), omega (arith, e))
page_limit-bounds (some String.[]) n h =
    let e : 50 ≡ n = ground arith in (omega (arith, e), omega (arith, e))
page_limit-bounds (some (String.◌∷◌ c s)) n h = elim (Bool-cases (eqb (code c) b'0')) [
  | inl z ↦ absurd (ground (arith, z))
  | inr z ↦ elim (Option-cases (digits 0 (String.◌∷◌ c s))) [
    | inl e ↦ absurd (ground (arith, z, e))
    | inr (m, e) ↦
        let found : min m 100 ≡ n = ground (arith, z, e) in
        let pos = digits_pos m c s z e in (omega (arith, found, pos), omega (arith, found, pos))
  ]
]
