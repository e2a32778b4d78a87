-- ===== src/Gateway/Owner/Laws.antt =====
-- `ownerOf` of services/gateway/src/routes/owner.ts on every path, and its two tables together.
use push_be.Prelude.{
  String, ◌≡◌, refl, ◌≢◌, ◌⊎◌, inl, inr, Bool, true, false, not, ◌&&◌, List, [], ◌∷◌, some, arith,
  if◌then◌else◌, ◌==◌, eq_iff, Option-cases, and-eq-true, subst,
}
use push_be.Routing.{Seg, lit, rest, matches, split_slash, Rule, decide}
use push_be.Routing.Symbolic.{within, within_sound, refuses, refuses_sound, foresee, foresee_sound}
use push_be.Routing.Chosen.{all_rules, decide-all_rules}
use push_be.Gateway.Owner.{
  core, python, deny, ambiguous, internal, is_python, is_core, is_recruiting, owner_of,
}
use push_be.Gateway.Owner.Rules.{python_rules, core_rules, recruiting_rules}

-- Core claims no path of the pattern, for requests with the method.
abbrev not_core : String → List Seg → Bool
not_core method p =
    not ("" == method)
    && (refuses (foresee method p core_rules) && refuses (foresee "" p recruiting_rules))

python_rules-not_core : all_rules not_core python_rules ≡ true
unfolding python_rules core_rules recruiting_rules foresee all_rules
python_rules-not_core = refl

not_core_sound :
    (method : String) (p : List Seg) (parts : List String)
    → not_core method p ≡ true
    → matches p parts ≡ true
    → is_core method parts ≡ false
unfolding is_core is_recruiting
not_core_sound method p parts h m =
    let tests = and-eq-true _ _ (and-eq-true (not ("" == method)) _ h).1 in
    let before = refuses_sound _ _ tests.0 (foresee_sound method p core_rules parts m) in
    let after = refuses_sound _ _ tests.1 (foresee_sound "" p recruiting_rules parts m) in
    ground arith

not_core-ne-nil : (method : String) (p : List Seg) → not_core method p ≡ true → method ≢ ""
not_core-ne-nil method p h e = ground (arith, eq_iff "" method)

-- No request is claimed by both workers: where `isPython` says yes, `isCore` would say no, so the
-- order in which `ownerOf` asks them does not matter.
pub is_core_of_is_python :
    (method : String) (parts : List String)
    → is_python method parts ≡ true
    → is_core method parts ≡ false
unfolding is_python
is_core_of_is_python method parts h = elim (Option-cases (decide method parts python_rules)) [
  | inl e ↦ cc
  | inr (b, e) ↦
      let c =
        decide-all_rules not_core method parts python_rules python_rules-not_core (ground arith) in
      elim c.same [
        | inl same ↦
            subst (λ k. is_core k parts ≡ false) same
              (not_core_sound c.at c.pattern parts c.tested c.matched)
        | inr same ↦ absurd (not_core-ne-nil c.at c.pattern c.tested same)
      ]
]

abbrev pub api : List Seg
api = lit "" ∷ lit "api" ∷ lit "v1" ∷ rest ∷ []

abbrev in_api : String → List Seg → Bool
in_api method p = within p api

python_rules-in_api : all_rules in_api python_rules ≡ true
unfolding python_rules all_rules within
python_rules-in_api = refl

core_rules-in_api : all_rules in_api core_rules ≡ true
unfolding core_rules all_rules within
core_rules-in_api = refl

recruiting_rules-in_api : all_rules in_api recruiting_rules ≡ true
unfolding recruiting_rules all_rules within
recruiting_rules-in_api = refl

decide-in_api :
    (method : String) (parts : List String) (rules : List Rule)
    → all_rules in_api rules ≡ true
    → decide method parts rules ≡ some true
    → matches api parts ≡ true
decide-in_api method parts rules h k =
    let c = decide-all_rules in_api method parts rules h k in
    within_sound c.pattern api parts c.tested c.matched

claimed_in_api :
    (method : String) (parts : List String)
    → (is_python method parts ≡ true) ⊎ (is_core method parts ≡ true)
    → matches api parts ≡ true
unfolding is_python is_core is_recruiting
claimed_in_api method parts (inl h) =
    decide-in_api method parts python_rules python_rules-in_api (ground arith)
claimed_in_api method parts (inr h) = elim (Option-cases (decide method parts core_rules)) [
  | inl e ↦ decide-in_api "" parts recruiting_rules recruiting_rules-in_api (ground arith)
  | inr (b, e) ↦ decide-in_api method parts core_rules core_rules-in_api (ground arith)
]

forwarded :
    (a i p c : Bool)
    → (if a then deny else if i then deny else if p then python else if c then core else deny)
      ≢ deny
    → (a ≡ false) × (i ≡ false) × ((p ≡ true) ⊎ (c ≡ true))
forwarded true i p c h = absurd (h refl)
forwarded false true p c h = absurd (h refl)
forwarded false false true c h = (refl, refl, inl refl)
forwarded false false false true h = (refl, refl, inr refl)
forwarded false false false false h = absurd (h refl)

-- A request that `ownerOf` gives to one of the workers has a path under /api/v1 that is neither ambiguous
-- nor internal. The requests that the handler answers or forwards before it asks `ownerOf`, POST
-- conversations/x/messages/stream among them, are not meant.
pub owner_of-IsForwarded :
    (method path : String)
    → owner_of method path ≢ deny
    → (ambiguous path ≡ false)
      × (matches internal (split_slash path) ≡ false)
      × (matches api (split_slash path) ≡ true)
unfolding owner_of
owner_of-IsForwarded method path h =
    let (plain, outside, claimed) = forwarded _ _ _ _ h in
    (plain, outside, claimed_in_api method (split_slash path) claimed)
