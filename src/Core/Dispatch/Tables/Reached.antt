-- ===== src/Core/Dispatch/Tables/Reached.antt =====
-- The routes of the files of services/core-api/src/routes at the gateway.
use push_be.Prelude.{
  String, ◌≡◌, refl, true, false, not, eq_iff, arith, List, [], ◌∷◌, inl, inr, any_of, All,
  and-eq-true, or-eq-true, subst, ◌==◌,
}
use push_be.Routing.{Seg, matches, split_slash, Rule, decide}
use push_be.Routing.Symbolic.{
  disjoint, disjoint_sound, refuses, refuses_sound, foresee, foresee_sound,
}
use push_be.Routing.Chosen.{all_rules, Chosen, decide-all_rules}
use push_be.Routing.Pruned.{matches_any, prune, decide-prune}
use push_be.Gateway.Owner.{core, ambiguous, internal, is_python, is_core, owner_of}
use push_be.Gateway.Owner.Rules.{python_rules, core_rules, recruiting_rules}
use push_be.Core.ActAs.Laws.{
  agrees_sound, act_as_core, core_answers, core_answers_sound, answered_by_core,
}
use push_be.Core.Dispatch.{said_yes}
use push_be.Core.Dispatch.Images.{one_image, is_image_read}
use push_be.Core.Dispatch.Tables.{handed_rules, is_handed}
use push_be.Core.Dispatch.Tables.Pieces.{
  reserved, answers_rest, reaches, email_auth_rules-reaches, phone_auth_rules-reaches,
  apple_auth_rules-reaches, postings_rules-reaches, search_rules-reaches, profiles_rules-reaches,
  offers_rules-reaches, blocks_rules-reaches, posts_rules-reaches, me_rules-reaches,
  companies_rules-reaches, consents_rules-reaches, applications_rules-reaches,
  sources_rules-reaches, images_rules-reaches, evidence_rules-reaches, experiments_rules-reaches,
  interviews_rules-reaches, projects_rules-reaches, integrations_rules-reaches,
  documents_rules-reaches,
}

-- What the gateway has to find for core.
abbrev ForCore : String → List String → Type 0
ForCore method parts =
    (matches internal parts ≡ false)
    × (is_python method parts ≡ false)
    × (is_core method parts ≡ true)

answers_rest_sound :
    (method : String) (p : List Seg) (parts : List String)
    → answers_rest method p ≡ true
    → matches p parts ≡ true
    → matches_any reserved parts ≡ false
    → ForCore method parts
unfolding answers_rest is_python is_core
answers_rest_sound method p parts h m out =
    let (named, more) = and-eq-true (not ("" == method)) _ h in
    let (outside, rest_of) = and-eq-true (disjoint p internal) _ more in
    let (not_python, answered) =
      and-eq-true (refuses (foresee method p (prune reserved p python_rules))) _ rest_of in
    let by_python = decide-prune reserved p method parts m out python_rules in
    let by_core = decide-prune reserved p method parts m out core_rules in
    (
      disjoint_sound p internal parts outside m,
      elim (refuses_sound _ _ not_python
          (foresee_sound method p (prune reserved p python_rules) parts m)) [
            | inl e ↦ rw (← by_python, e) refl
            | inr e ↦ rw (← by_python, e) refl
          ],
      rw
          (
            ← by_core,
            agrees_sound _ _ answered
                (foresee_sound method p (prune reserved p core_rules) parts m),
          )
          refl,
    )

reaches_sound :
    (method : String) (parts : List String)
    → Chosen reaches method parts
    → matches_any reserved parts ≡ false
    → ForCore method parts
unfolding reaches answers_rest
reaches_sound method parts c out = elim (or-eq-true (act_as_core c.at c.pattern) _ c.tested) [
  | inl t ↦ answered_by_core c.at method c.pattern parts t c.same c.matched
  | inr t ↦
      let found = answers_rest_sound c.at c.pattern parts t c.matched out in
      elim c.same [
        | inl e ↦ subst (λ k. ForCore k parts) e found
        | inr e ↦ absurd (ground (arith, eq_iff "" c.at, and-eq-true (not ("" == c.at)) _ t))
      ]
]

handed-Chosen :
    (method : String) (parts : List String) (tables : List (List Rule))
    → All (λ rules. all_rules reaches rules ≡ true) tables
    → any_of (λ rules. said_yes (decide method parts rules)) tables ≡ true
    → Chosen reaches method parts
handed-Chosen method parts [] h k = absurd (ground (arith, k))
handed-Chosen method parts (rules ∷ tables) (h, hs) k =
    elim (or-eq-true (said_yes (decide method parts rules)) _ k) [
      | inl e ↦ decide-all_rules reaches method parts rules h (ground arith)
      | inr e ↦ handed-Chosen method parts tables hs e
    ]

handed_rules-reach : All (λ rules. all_rules reaches rules ≡ true) handed_rules
unfolding handed_rules
handed_rules-reach = (
  email_auth_rules-reaches,
  (
    phone_auth_rules-reaches,
    (
      apple_auth_rules-reaches,
      (
        postings_rules-reaches,
        (
          search_rules-reaches,
          (
            profiles_rules-reaches,
            (
              offers_rules-reaches,
              (
                blocks_rules-reaches,
                (
                  posts_rules-reaches,
                  (
                    me_rules-reaches,
                    (
                      companies_rules-reaches,
                      (
                        consents_rules-reaches,
                        (
                          applications_rules-reaches,
                          (
                            sources_rules-reaches,
                            (
                              images_rules-reaches,
                              (
                                evidence_rules-reaches,
                                (
                                  experiments_rules-reaches,
                                  (
                                    interviews_rules-reaches,
                                    (
                                      projects_rules-reaches,
                                      (integrations_rules-reaches, (documents_rules-reaches, tt)),
                                    ),
                                  ),
                                ),
                              ),
                            ),
                          ),
                        ),
                      ),
                    ),
                  ),
                ),
              ),
            ),
          ),
        ),
      ),
    ),
  ),
)

images_core : core_answers "GET" one_image ≡ true
unfolding python_rules core_rules recruiting_rules foresee disjoint
images_core = refl

image_read-ForCore :
    (method path : String)
    → is_image_read method path ≡ true
    → matches one_image (split_slash path) ≡ true
    → ForCore method (split_slash path)
unfolding is_image_read
image_read-ForCore method path h m =
    let same : "GET" ≡ method =
      ground (arith, eq_iff method "GET", and-eq-true (method == "GET") _ h) in
    subst (λ k. ForCore k (split_slash path)) same
      (core_answers_sound "GET" one_image (split_slash path) images_core m)

-- Every route of the files that core's dispatch asks is one that the gateway hands to core and to no
-- other, if the path holds no `//` and no encoded slash, is none of `applications/import`,
-- `career-evidence/import`, `projects/blueprints` and a shared document with a token that is the name
-- of a route, and, where an image is read, its name is one part that is not empty: core answers
-- GET uploads/images/a/b and uploads/images/ too, which the gateway does not hand on.
pub owner_of-is_handed :
    (method path : String)
    → is_handed method path ≡ true
    → ambiguous path ≡ false
    → matches_any reserved (split_slash path) ≡ false
    → (is_image_read method path ≡ true → matches one_image (split_slash path) ≡ true)
    → owner_of method path ≡ core
unfolding owner_of is_handed
owner_of-is_handed method path h plain out one =
    let parts = split_slash path in
    let (outside, not_python, answered) : ForCore method parts =
      elim (or-eq-true (any_of (λ rules. said_yes (decide method parts rules)) handed_rules) _ h) [
        | inl e ↦
            reaches_sound method parts
              (handed-Chosen method parts handed_rules handed_rules-reach e) out
        | inr e ↦ image_read-ForCore method path e (one e)
      ] in
    ground arith
