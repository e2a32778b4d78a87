-- ===== src/Core/Dispatch/Tables/Pieces.antt =====
-- Each table of services/core-api/src/routes against the tables of the gateway.
use push_be.Prelude.{String, ◌≡◌, refl, Bool, true, not, ◌&&◌, ◌||◌, List, [], ◌∷◌, ◌==◌}
use push_be.Routing.{Seg, lit, one_of}
use push_be.Routing.Symbolic.{disjoint, refuses, foresee, within}
use push_be.Routing.Chosen.{all_rules}
use push_be.Routing.Pruned.{meet, excluded, prune}
use push_be.Gateway.Owner.{internal}
use push_be.Gateway.Owner.Rules.{python_rules, core_rules, recruiting_rules}
use push_be.Core.ActAs.Laws.{agrees, act_as_core}
use push_be.Core.Dispatch.Verbs.{v1}
use push_be.Core.Dispatch.Tables.Accounts.{
  email_auth_rules, phone_auth_rules, apple_auth_rules, me_rules, blocks_rules, consents_rules,
  profiles_rules, offers_rules, companies_rules,
}
use push_be.Core.Dispatch.Tables.Work.{
  postings_rules, search_rules, posts_rules, applications_rules, sources_rules, images_rules,
  evidence_rules, experiments_rules, interviews_rules, projects_rules, integrations_rules,
  documents_rules,
}

-- Paths that read like the id of a thing and are another route: what follows an id is no share token,
-- and the three words are no ids.
unfoldable pub reserved : List (List Seg)
reserved =
    v1 (lit "applications" ∷ lit "import" ∷ [])
    ∷ v1 (lit "career-evidence" ∷ lit "import" ∷ [])
    ∷ v1 (lit "projects" ∷ lit "blueprints" ∷ [])
    ∷ v1 (
        lit "documents"
        ∷ lit "shared"
        ∷ one_of ("generate" ∷ "edits" ∷ "versions" ∷ "exports" ∷ "profile" ∷ "base-profile" ∷ [])
        ∷ [])
    ∷ []

-- Core answers every path of the pattern that is not reserved, and nothing before it does.
unfoldable pub answers_rest : String → List Seg → Bool
answers_rest method p =
    not ("" == method)
    && (disjoint p internal
        && (refuses (foresee method p (prune reserved p python_rules))
            && agrees (foresee method p (prune reserved p core_rules))))

unfoldable pub reaches : String → List Seg → Bool
reaches method p = act_as_core method p || answers_rest method p

pub email_auth_rules-reaches : all_rules reaches email_auth_rules ≡ true
unfolding email_auth_rules all_rules reaches answers_rest reserved act_as_core python_rules
    core_rules recruiting_rules foresee disjoint within prune excluded meet
email_auth_rules-reaches = refl

pub phone_auth_rules-reaches : all_rules reaches phone_auth_rules ≡ true
unfolding phone_auth_rules all_rules reaches answers_rest reserved act_as_core python_rules
    core_rules recruiting_rules foresee disjoint within prune excluded meet
phone_auth_rules-reaches = refl

pub apple_auth_rules-reaches : all_rules reaches apple_auth_rules ≡ true
unfolding apple_auth_rules all_rules reaches answers_rest reserved act_as_core python_rules
    core_rules recruiting_rules foresee disjoint within prune excluded meet
apple_auth_rules-reaches = refl

pub me_rules-reaches : all_rules reaches me_rules ≡ true
unfolding me_rules all_rules reaches answers_rest reserved act_as_core python_rules core_rules
    recruiting_rules foresee disjoint within prune excluded meet
me_rules-reaches = refl

pub blocks_rules-reaches : all_rules reaches blocks_rules ≡ true
unfolding blocks_rules all_rules reaches answers_rest reserved act_as_core python_rules core_rules
    recruiting_rules foresee disjoint within prune excluded meet
blocks_rules-reaches = refl

pub consents_rules-reaches : all_rules reaches consents_rules ≡ true
unfolding consents_rules all_rules reaches answers_rest reserved act_as_core python_rules core_rules
    recruiting_rules foresee disjoint within prune excluded meet
consents_rules-reaches = refl

pub profiles_rules-reaches : all_rules reaches profiles_rules ≡ true
unfolding profiles_rules all_rules reaches answers_rest reserved act_as_core python_rules core_rules
    recruiting_rules foresee disjoint within prune excluded meet
profiles_rules-reaches = refl

pub offers_rules-reaches : all_rules reaches offers_rules ≡ true
unfolding offers_rules all_rules reaches answers_rest reserved act_as_core python_rules core_rules
    recruiting_rules foresee disjoint within prune excluded meet
offers_rules-reaches = refl

pub companies_rules-reaches : all_rules reaches companies_rules ≡ true
unfolding companies_rules all_rules reaches answers_rest reserved act_as_core python_rules
    core_rules recruiting_rules foresee disjoint within prune excluded meet
companies_rules-reaches = refl

pub postings_rules-reaches : all_rules reaches postings_rules ≡ true
unfolding postings_rules all_rules reaches answers_rest reserved act_as_core python_rules core_rules
    recruiting_rules foresee disjoint within prune excluded meet
postings_rules-reaches = refl

pub search_rules-reaches : all_rules reaches search_rules ≡ true
unfolding search_rules all_rules reaches answers_rest reserved act_as_core python_rules core_rules
    recruiting_rules foresee disjoint within prune excluded meet
search_rules-reaches = refl

pub posts_rules-reaches : all_rules reaches posts_rules ≡ true
unfolding posts_rules all_rules reaches answers_rest reserved act_as_core python_rules core_rules
    recruiting_rules foresee disjoint within prune excluded meet
posts_rules-reaches = refl

pub applications_rules-reaches : all_rules reaches applications_rules ≡ true
unfolding applications_rules all_rules reaches answers_rest reserved act_as_core python_rules
    core_rules recruiting_rules foresee disjoint within prune excluded meet
applications_rules-reaches = refl

pub sources_rules-reaches : all_rules reaches sources_rules ≡ true
unfolding sources_rules all_rules reaches answers_rest reserved act_as_core python_rules core_rules
    recruiting_rules foresee disjoint within prune excluded meet
sources_rules-reaches = refl

pub images_rules-reaches : all_rules reaches images_rules ≡ true
unfolding images_rules all_rules reaches answers_rest reserved act_as_core python_rules core_rules
    recruiting_rules foresee disjoint within prune excluded meet
images_rules-reaches = refl

pub evidence_rules-reaches : all_rules reaches evidence_rules ≡ true
unfolding evidence_rules all_rules reaches answers_rest reserved act_as_core python_rules core_rules
    recruiting_rules foresee disjoint within prune excluded meet
evidence_rules-reaches = refl

pub experiments_rules-reaches : all_rules reaches experiments_rules ≡ true
unfolding experiments_rules all_rules reaches answers_rest reserved act_as_core python_rules
    core_rules recruiting_rules foresee disjoint within prune excluded meet
experiments_rules-reaches = refl

pub interviews_rules-reaches : all_rules reaches interviews_rules ≡ true
unfolding interviews_rules all_rules reaches answers_rest reserved act_as_core python_rules
    core_rules recruiting_rules foresee disjoint within prune excluded meet
interviews_rules-reaches = refl

pub projects_rules-reaches : all_rules reaches projects_rules ≡ true
unfolding projects_rules all_rules reaches answers_rest reserved act_as_core python_rules core_rules
    recruiting_rules foresee disjoint within prune excluded meet
projects_rules-reaches = refl

pub integrations_rules-reaches : all_rules reaches integrations_rules ≡ true
unfolding integrations_rules all_rules reaches answers_rest reserved act_as_core python_rules
    core_rules recruiting_rules foresee disjoint within prune excluded meet
integrations_rules-reaches = refl

pub documents_rules-reaches : all_rules reaches documents_rules ≡ true
unfolding documents_rules all_rules reaches answers_rest reserved act_as_core python_rules
    core_rules recruiting_rules foresee disjoint within prune excluded meet
documents_rules-reaches = refl
