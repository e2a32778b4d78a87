-- ===== src/Core/Dispatch/Reachable.antt =====
-- The routes of core's `dispatch` (services/core-api/src/handler.ts) at the gateway.
use push_be.Prelude.{
  String, ◌≡◌, refl, Bool, true, false, ◌||◌, arith, List, [], ◌∷◌, inl, inr, or-eq-true,
}
use push_be.Routing.{Seg, lit, matches, split_slash}
use push_be.Routing.Symbolic.{within, within_sound, foresee, disjoint}
use push_be.Routing.Chosen.{all_rules, decide-all_rules}
use push_be.Gateway.Owner.{core, ambiguous, owner_of}
use push_be.Gateway.Owner.Rules.{python_rules, core_rules, recruiting_rules}
use push_be.Core.ActAs.Laws.{act_as_core, answered_by_core}
use push_be.Core.Dispatch.{direct_rules, is_direct}

-- The one route that the gateway answers from its own tables.
abbrev pub auth_me : List Seg
auth_me = lit "" ∷ lit "api" ∷ lit "v1" ∷ lit "auth" ∷ lit "me" ∷ []

core_or_me : String → List Seg → Bool
core_or_me at p = act_as_core at p || within p auth_me

direct_rules-core_or_me : all_rules core_or_me direct_rules ≡ true
unfolding core_or_me act_as_core python_rules core_rules recruiting_rules all_rules direct_rules
    foresee disjoint within
direct_rules-core_or_me = refl

-- Every route that `dispatch` answers itself, but /api/v1/auth/me, is one that the gateway hands to
-- core and to no other, if the path holds no `//` and no encoded slash.
pub owner_of-is_direct :
    (method path : String)
    → is_direct method path ≡ true
    → ambiguous path ≡ false
    → matches auth_me (split_slash path) ≡ false
    → owner_of method path ≡ core
unfolding owner_of is_direct core_or_me
owner_of-is_direct method path h plain not_me =
    let parts = split_slash path in
    let c =
      decide-all_rules core_or_me method parts direct_rules direct_rules-core_or_me
        (ground arith) in
    elim (or-eq-true (act_as_core c.at c.pattern) _ c.tested) [
      | inl t ↦
          let (outside, not_python, answered) =
            answered_by_core c.at method c.pattern parts t c.same c.matched in
          ground arith
      | inr t ↦ absurd (ground (arith, within_sound c.pattern auth_me parts t c.matched))
    ]
