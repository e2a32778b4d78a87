-- ===== src/Core/ActAs/Laws.antt =====
-- What an act-as call has shown, and where such calls are answered.
use push_be.Prelude.{
  String, ◌≡◌, refl, ◌≢◌, ◌⊎◌, inl, inr, Bool, true, false, not, ◌&&◌, ◌||◌, List, Option, none,
  some, arith, ◌==◌, eq_iff, Option-cases, Bool-cases, and-eq-true, or-eq-true, subst,
}
use push_be.Routing.{Seg, matches, split_slash}
use push_be.Routing.Symbolic.{
  disjoint, disjoint_sound, Answer, unknown, falls, never, gives, refuses, refuses_sound, foresee,
  Foretells, foresee_sound,
}
use push_be.Routing.Chosen.{all_rules, decide-all_rules}
use push_be.Gateway.Owner.{core, ambiguous, internal, is_python, is_core, is_recruiting, owner_of}
use push_be.Gateway.Owner.Rules.{python_rules, core_rules, recruiting_rules}
use push_be.Core.ActAs.{
  act_as_routes, act_as_allowed, Request, ok, or_empty, with_company, act_as_of, secret_matches,
}

-- The answer is yes.
abbrev pub agrees : Answer → Bool
agrees (gives b) = b
agrees _ = false

pub agrees_sound : (a : Answer) (o : Option Bool) → agrees a ≡ true → Foretells a o → o ≡ some true
agrees_sound unknown o h k = cc
agrees_sound falls o h k = cc
agrees_sound never o h k = cc
agrees_sound (gives true) o h k = k
agrees_sound (gives false) o h k = cc

abbrev pub passes_on : Answer → Bool
passes_on falls = true
passes_on _ = false

passes_on_sound : (a : Answer) (o : Option Bool) → passes_on a ≡ true → Foretells a o → o ≡ none
passes_on_sound unknown o h k = cc
passes_on_sound falls o h k = k
passes_on_sound never o h k = cc
passes_on_sound (gives b) o h k = cc

-- Core answers every path of the pattern, and nothing before it does.
abbrev pub core_answers : String → List Seg → Bool
core_answers method p =
    disjoint p internal
    && (refuses (foresee method p python_rules)
        && (agrees (foresee method p core_rules)
            || passes_on (foresee method p core_rules) && agrees (foresee "" p recruiting_rules)))

unfoldable pub act_as_core : String → List Seg → Bool
act_as_core method p = not ("" == method) && core_answers method p

act_as_routes_core : all_rules act_as_core act_as_routes ≡ true
unfolding act_as_core act_as_routes python_rules core_rules recruiting_rules foresee all_rules
    disjoint
act_as_routes_core = refl

core_by_rules :
    (method : String) (p : List Seg) (parts : List String)
    → (agrees (foresee method p core_rules)
        || passes_on (foresee method p core_rules) && agrees (foresee "" p recruiting_rules))
      ≡ true
    → matches p parts ≡ true
    → is_core method parts ≡ true
unfolding is_core is_recruiting
core_by_rules method p parts h m = elim (or-eq-true _ _ h) [
  | inl e ↦ rw (agrees_sound _ _ e (foresee_sound method p core_rules parts m)) refl
  | inr e ↦
      let (falls_through, yes_later) = and-eq-true (passes_on (foresee method p core_rules)) _ e in
      rw (passes_on_sound _ _ falls_through (foresee_sound method p core_rules parts m))
        (rw (agrees_sound _ _ yes_later (foresee_sound "" p recruiting_rules parts m)) refl)
]

pub core_answers_sound :
    (method : String) (p : List Seg) (parts : List String)
    → core_answers method p ≡ true
    → matches p parts ≡ true
    → (matches internal parts ≡ false)
      × (is_python method parts ≡ false)
      × (is_core method parts ≡ true)
unfolding is_python
core_answers_sound method p parts h m =
    let (outside, rest_of) = and-eq-true (disjoint p internal) _ h in
    let (not_python, answered) = and-eq-true (refuses (foresee method p python_rules)) _ rest_of in
    (
      disjoint_sound p internal parts outside m,
      elim (refuses_sound _ _ not_python (foresee_sound method p python_rules parts m)) [
        | inl e ↦ rw e refl
        | inr e ↦ rw e refl
      ],
      core_by_rules method p parts answered m,
    )

-- What a pattern that core answers says of a request that it matches.
pub answered_by_core :
    (at method : String) (p : List Seg) (parts : List String)
    → act_as_core at p ≡ true
    → (at ≡ method) ⊎ (at ≡ "")
    → matches p parts ≡ true
    → (matches internal parts ≡ false)
      × (is_python method parts ≡ false)
      × (is_core method parts ≡ true)
unfolding act_as_core
answered_by_core at method p parts h same m =
    let (named, answers) = and-eq-true (not ("" == at)) _ h in
    elim same [
      | inl e ↦
          subst
            (λ k.
              (matches internal parts ≡ false)
              × (is_python k parts ≡ false)
              × (is_core k parts ≡ true))
            e (core_answers_sound at p parts answers m)
      | inr e ↦ absurd (ground (arith, eq_iff "" at))
    ]

-- Every request that the AI worker may make in the name of a user is one that the gateway hands to
-- core, if the path holds no `//` and no encoded slash.
pub owner_of-act_as_allowed :
    (method path : String)
    → act_as_allowed method path ≡ true
    → ambiguous path ≡ false
    → owner_of method path ≡ core
unfolding act_as_allowed owner_of
owner_of-act_as_allowed method path h plain =
    let parts = split_slash path in
    let c =
      decide-all_rules act_as_core method parts act_as_routes act_as_routes_core (ground arith) in
    let (outside, not_python, answered) =
      answered_by_core c.at method c.pattern parts c.tested c.same c.matched in
    ground arith

secret_shown :
    (secret : Option String) (expected : String)
    → ("" == expected || not (or_empty secret == expected)) ≡ false
    → (secret ≡ some expected) × (expected ≢ "")
secret_shown none expected h = ground (arith, eq_iff "" expected)
secret_shown (some s) expected h = ground (arith, eq_iff "" expected, eq_iff s expected)

with_company_sound :
    {User : Type 0} (parse : String → Option User) (member : User → User → Bool) (u : User)
    (header : Option String) (user : User) (company : Option User)
    → with_company parse member u header ≡ ok (some (user, company))
    → (u ≡ user)
      × ((company ≡ none)
          ⊎ ((c : User) × (name : String) × (header ≡ some name)
              × (parse name ≡ some c)
              × (company ≡ some c)
              × (member user c ≡ true)))
unfolding with_company
with_company_sound parse member u none user company h = ground arith
with_company_sound parse member u (some name) user company h = elim (Bool-cases ("" == name)) [
  | inl e ↦ ground arith
  | inr e ↦ elim (Option-cases (parse name)) [
    | inl p ↦ ground arith
    | inr (c, p) ↦ elim (Bool-cases (member u c)) [
      | inl m ↦ (ground arith, inr (c, name, refl, p, ground arith, ground arith))
      | inr m ↦ ground arith
    ]
  ]
]

-- A request acts for a user only with the secret, which is set and is the worker's, on a listed
-- route, for the user that its header names, and for a company only where its header names it and the user is a
-- member.
pub act_as_of_sound :
    {User : Type 0} (parse : String → Option User) (member : User → User → Bool) (expected : String)
    (r : Request) (user : User) (company : Option User)
    → act_as_of parse member expected r ≡ ok (some (user, company))
    → (r.secret ≡ some expected)
      × (expected ≢ "")
      × (act_as_allowed r.method r.path ≡ true)
      × (id : String) × (r.act_as ≡ some id)
      × (parse id ≡ some user)
      × ((company ≡ none)
          ⊎ ((c : User) × (name : String) × (r.company ≡ some name)
              × (parse name ≡ some c)
              × (company ≡ some c)
              × (member user c ≡ true)))
unfolding act_as_of secret_matches
act_as_of_sound parse member expected r user company h =
    elim (Bool-cases ("" == expected || not (or_empty r.secret == expected))) [
      | inl e ↦ ground arith
      | inr e ↦ elim (Option-cases r.act_as) [
        | inl absent ↦ ground (arith, secret_shown r.secret expected e)
        | inr (id, named) ↦ elim (Option-cases (parse id)) [
          | inl bad ↦ ground arith
          | inr (u, parsed) ↦
              let (shown, is_set) = secret_shown r.secret expected e in
              let (same, company_ok) =
                with_company_sound parse member u r.company user company (ground arith) in
              (shown, is_set, ground arith, id, named, ground arith, company_ok)
        ]
      ]
    ]
