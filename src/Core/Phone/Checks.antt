-- ===== src/Core/Phone/Checks.antt =====
-- The code that a check accepts: services/core-api/src/routes/phone-auth.ts.
use push_be.Prelude.{
  ℕ, ◌≤◌, ◌<◌, String, eq_iff, ◌≡◌, refl, Bool, true, none, some, List, [], ◌∷◌, All, ◌⊎◌, false,
  arith, ltb, subst, Bool-cases, Option-cases, inl, inr,
}
use push_be.Core.Phone.{Code, is_open, active, accepted, verify_phone}

abbrev pub IsIn : Code → List Code → Type 0
IsIn r [] = ⊥
IsIn r (c ∷ cs) = (c ≡ r) ⊎ IsIn r cs

-- The row is one of the codes, of the phone, not used up, and sent no earlier than the others of these.
abbrev pub Usable : String → List Code → Code → Type 0
Usable phone cs r =
    IsIn r cs
    × (r.phone ≡ phone)
    × (r.consumed_at ≡ none)
    × All (λ c. c.phone ≡ phone → c.consumed_at ≡ none → c.sent_at ≤ r.sent_at) cs

open_code :
    (phone : String) (c : Code)
    → is_open phone c ≡ true
    → (c.phone ≡ phone) × (c.consumed_at ≡ none)
open_code phone c h = elim (Option-cases c.consumed_at) [
  | inl e ↦ (ground (arith, e, eq_iff c.phone phone), e)
  | inr (t, e) ↦ absurd (ground (arith, e))
]

not_open :
    (phone : String) (c r : Code)
    → is_open phone c ≡ false
    → c.phone ≡ phone
    → c.consumed_at ≡ none
    → c.sent_at ≤ r.sent_at
not_open phone c r h same unused = absurd (ground (arith, unused, same, eq_iff c.phone phone))

none_open :
    (phone : String) (cs : List Code) (r : Code)
    → active phone cs ≡ none
    → All (λ c. c.phone ≡ phone → c.consumed_at ≡ none → c.sent_at ≤ r.sent_at) cs
unfolding active
none_open phone [] r h = tt
none_open phone (c ∷ cs) r h = elim (Bool-cases (is_open phone c)) [
  | inl e ↦ absurd (ground (arith, e))
  | inr e ↦ (not_open phone c r e, none_open phone cs r (ground (arith, e, h)))
]

later_still :
    (phone : String) (cs : List Code) (d r : Code)
    → d.sent_at ≤ r.sent_at
    → All (λ c. c.phone ≡ phone → c.consumed_at ≡ none → c.sent_at ≤ d.sent_at) cs
    → All (λ c. c.phone ≡ phone → c.consumed_at ≡ none → c.sent_at ≤ r.sent_at) cs
later_still phone [] d r le h = tt
later_still phone (c ∷ cs) d r le (p, h) = (
  λ same unused. let before = p same unused in omega (arith, before),
  later_still phone cs d r le h,
)

active-Usable :
    (phone : String) (cs : List Code) (r : Code) → active phone cs ≡ some r → Usable phone cs r
unfolding active
active-Usable phone [] r h = cc
active-Usable phone (c ∷ cs) r h = elim (Bool-cases (is_open phone c)) [
  | inr e ↦
      let (here, same, unused, latest) = active-Usable phone cs r (ground (arith, e, h)) in
      (inr here, same, unused, (not_open phone c r e, latest))
  | inl e ↦
      let (same, unused) = open_code phone c e in
      elim (Option-cases (active phone cs)) [
        | inl n ↦
            let it : c ≡ r = ground (arith, e, n, h) in
            subst (Usable phone (c ∷ cs)) it
              (inl refl, same, unused, (λ p q. omega arith, none_open phone cs c n))
        | inr (d, n) ↦
            let (here, same_d, unused_d, latest) = active-Usable phone cs d n in
            elim (Bool-cases (ltb c.sent_at d.sent_at)) [
              | inl l ↦
                  let it : d ≡ r = ground (arith, e, n, l, h) in
                  subst (Usable phone (c ∷ cs)) it
                    (inr here, same_d, unused_d, (λ p q. ground (arith, l), latest))
              | inr l ↦
                  let it : c ≡ r = ground (arith, e, n, l, h) in
                  subst (Usable phone (c ∷ cs)) it (
                    inl refl,
                    same,
                    unused,
                    (λ p q. omega arith, later_still phone cs d c (ground (arith, l)) latest),
                  )
            ]
      ]
]

-- A code is accepted only if a code of the phone that is not used up, the latest of these, has its digest
-- stored, is asked for before its time is over, and after fewer wrong attempts than the limit.
pub verify_phone_sound :
    (digest : ℕ → String → String) (meanwhile : List Code → List Code) (limit : ℕ)
    (pending_ok : Bool) (phone code : String) (now : ℕ) (cs : List Code)
    → (verify_phone digest meanwhile limit pending_ok phone code now cs).1 ≡ accepted
    → (r : Code) × Usable phone cs r
      × (digest r.id code ≡ r.hash)
      × (now < r.expires_at)
      × (r.attempts < limit)
      × (pending_ok ≡ true)
unfolding verify_phone
verify_phone_sound digest meanwhile limit pending_ok phone code now cs h =
    elim (Option-cases (active phone cs)) [
      | inl e ↦ absurd (ground (arith, e))
      | inr (r, e) ↦
          let same = eq_iff (digest r.id code) r.hash in
          (
            r,
            active-Usable phone cs r e,
            ground (arith, e, same),
            ground (arith, e),
            ground (arith, e),
            ground (arith, e),
          )
    ]
