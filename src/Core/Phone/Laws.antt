-- ===== src/Core/Phone/Laws.antt =====
-- The codes of a phone that are open, and how a check uses them up: services/core-api/src/routes/phone-auth.ts.
use push_be.Prelude.{
  ℕ, ◌+◌, ◌≤◌, ◌<◌, String, eq_refl, ◌≡◌, refl, Bool, true, ◌&&◌, none, some, List, [], ◌∷◌, arith,
  eqb, eqb_iff, if◌then◌else◌, any_of, Bool-cases, Option-cases, inl, inr,
}
use push_be.Core.Phone.{Code, is_open, active, consume_one, accepted, invalid, verify_phone}

-- The codes of a phone that can still be used.
abbrev pub open_count : String → List Code → ℕ
open_count phone [] = 0
open_count phone (c ∷ cs) = (if is_open phone c then 1 else 0) + open_count phone cs

open_count-active :
    (phone : String) (cs : List Code) → open_count phone cs ≡ 0 → active phone cs ≡ none
unfolding active
open_count-active phone [] h = refl
open_count-active phone (c ∷ cs) h = elim (Bool-cases (is_open phone c)) [
  | inl e ↦ absurd (ground (arith, e))
  | inr e ↦ let later = open_count-active phone cs (ground (arith, e)) in ground (arith, e, later)
]

abbrev has_open : String → ℕ → List Code → Bool
has_open phone id cs = any_of (λ c. eqb c.id id && is_open phone c) cs

active-has_open :
    (phone : String) (cs : List Code) (r : Code)
    → active phone cs ≡ some r
    → has_open phone r.id cs ≡ true
unfolding active
active-has_open phone [] r h = cc
active-has_open phone (c ∷ cs) r h = elim (Bool-cases (is_open phone c)) [
  | inr e ↦ let later = active-has_open phone cs r (ground (arith, e)) in ground (arith, later)
  | inl e ↦ elim (Option-cases (active phone cs)) [
    | inl n ↦ ground (arith, e, n, eqb_iff r.id r.id)
    | inr (d, n) ↦
        let later = active-has_open phone cs d n in ground (arith, e, n, later, eqb_iff r.id r.id)
  ]
]

consume_one-le :
    (phone : String) (id now : ℕ) (cs : List Code)
    → open_count phone (consume_one id now cs) ≤ open_count phone cs
unfolding consume_one
consume_one-le phone id now [] = omega arith
consume_one-le phone id now (c ∷ cs) =
    let later = consume_one-le phone id now cs in ground (arith, later)

consume_one-lt :
    (phone : String) (id now : ℕ) (cs : List Code)
    → has_open phone id cs ≡ true
    → open_count phone (consume_one id now cs) < open_count phone cs
unfolding consume_one
consume_one-lt phone id now [] h = cc
consume_one-lt phone id now (c ∷ cs) h = elim (Bool-cases (eqb c.id id && is_open phone c)) [
  | inl e ↦ let later = consume_one-le phone id now cs in ground (arith, e, later, eq_refl c.phone)
  | inr e ↦ let later = consume_one-lt phone id now cs (ground (arith, e)) in ground (arith, later)
]

verify_phone-consumes :
    (digest : ℕ → String → String) (limit : ℕ) (pending_ok : Bool) (phone code : String) (now : ℕ)
    (cs : List Code)
    → (verify_phone digest (λ d. d) limit pending_ok phone code now cs).1 ≡ accepted
    → open_count phone (verify_phone digest (λ d. d) limit pending_ok phone code now cs).0
      < open_count phone cs
unfolding verify_phone
verify_phone-consumes digest limit pending_ok phone code now cs h =
    elim (Option-cases (active phone cs)) [
      | inl e ↦ absurd (ground (arith, e))
      | inr (r, e) ↦
          let less = consume_one-lt phone r.id now cs (active-has_open phone cs r e) in
          ground (arith, e, less)
    ]

verify_phone-none :
    (digest : ℕ → String → String) (limit : ℕ) (pending_ok : Bool) (phone code : String) (now : ℕ)
    (cs : List Code)
    → active phone cs ≡ none
    → (verify_phone digest (λ d. d) limit pending_ok phone code now cs).1 ≡ invalid
unfolding verify_phone
verify_phone-none digest limit pending_ok phone code now cs h = rw (verify_phone, h) refl

-- Where a phone has one open code at most, and no other request comes in between, an accepted code
-- is used up: the next check of any code for the phone answers that it is invalid.
pub verify_phone_twice :
    (digest : ℕ → String → String) (limit : ℕ) (pending_ok again : Bool) (phone code code' : String)
    (now now' : ℕ) (cs : List Code)
    → open_count phone cs ≤ 1
    → (verify_phone digest (λ d. d) limit pending_ok phone code now cs).1 ≡ accepted
    → (verify_phone digest
        (λ d. d)
        limit
        again
        phone
        code'
        now'
        (verify_phone digest (λ d. d) limit pending_ok phone code now cs).0).1
      ≡ invalid
verify_phone_twice digest limit pending_ok again phone code code' now now' cs one h =
    let less = verify_phone-consumes digest limit pending_ok phone code now cs h in
    verify_phone-none digest limit again phone code' now' _
      (open_count-active phone _ (omega (arith, less)))
