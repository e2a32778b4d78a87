-- ===== src/Core/Dispatch/Tables.antt =====
-- The files that `dispatch` of services/core-api/src/handler.ts asks, in its order; `is_handed` is that
-- one of them has a route, or the read of an image. notification-jobs.ts is asked before the sign-in, by `handle`.
pub mod Accounts
pub mod Work
pub mod Pieces
pub mod Reached
use push_be.Prelude.{String, Bool, List, [], ◌∷◌, any_of, ◌||◌}
use push_be.Routing.{split_slash, Rule, decide}
use push_be.Core.Dispatch.{said_yes}
use push_be.Core.Dispatch.Images.{is_image_read}
use push_be.Core.Dispatch.Tables.Accounts.{
  email_auth_rules, phone_auth_rules, apple_auth_rules, me_rules, blocks_rules, consents_rules,
  profiles_rules, offers_rules, companies_rules,
}
use push_be.Core.Dispatch.Tables.Work.{
  postings_rules, search_rules, posts_rules, applications_rules, sources_rules, images_rules,
  evidence_rules, experiments_rules, interviews_rules, projects_rules, integrations_rules,
  documents_rules,
}

unfoldable pub handed_rules : List (List Rule)
handed_rules =
    email_auth_rules ∷ phone_auth_rules ∷ apple_auth_rules ∷ postings_rules ∷ search_rules
    ∷ profiles_rules ∷ offers_rules ∷ blocks_rules ∷ posts_rules ∷ me_rules ∷ companies_rules
    ∷ consents_rules ∷ applications_rules ∷ sources_rules ∷ images_rules ∷ evidence_rules
    ∷ experiments_rules ∷ interviews_rules ∷ projects_rules ∷ integrations_rules ∷ documents_rules
    ∷ []

unfoldable pub is_handed : String → String → Bool
is_handed method path =
    any_of (λ rules. said_yes (decide method (split_slash path) rules)) handed_rules
    || is_image_read method path
