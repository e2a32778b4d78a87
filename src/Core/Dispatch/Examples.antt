-- ===== src/Core/Dispatch/Examples.antt =====
-- The theorem on the routes of `dispatch` at a concrete request.
use push_be.Prelude.{◌≡◌, refl, true, false}
use push_be.Routing.{matches, split_slash, decide}
use push_be.Gateway.Owner.{core, ambiguous, owner_of, is_core, is_recruiting}
use push_be.Gateway.Owner.Rules.{core_rules, recruiting_rules}
use push_be.Core.Dispatch.Images.{one_image, has_dots, is_image_read}
use push_be.Core.Dispatch.{direct_rules, is_direct}
use push_be.Routing.Pruned.{matches_any}
use push_be.Core.Dispatch.Tables.{handed_rules, is_handed}
use push_be.Core.Dispatch.Tables.Accounts.{
  email_auth_rules, phone_auth_rules, apple_auth_rules, me_rules, blocks_rules, consents_rules,
  profiles_rules, offers_rules, companies_rules,
}
use push_be.Core.Dispatch.Tables.Work.{
  postings_rules, search_rules, posts_rules, applications_rules, sources_rules, images_rules,
  evidence_rules, experiments_rules, interviews_rules, projects_rules, integrations_rules,
  documents_rules,
}
use push_be.Core.Dispatch.Tables.Pieces.{reserved}
use push_be.Core.Dispatch.Tables.Reached.{owner_of-is_handed}
use push_be.Core.Dispatch.Reachable.{auth_me, owner_of-is_direct}

run_dispatch : Unit {0}
unfolding is_direct direct_rules decide split_slash matches ambiguous
run_dispatch = tt

checkout_direct : is_direct "POST" "/api/v1/billing/checkout" ≡ true
unfolding run_dispatch
checkout_direct = refl

checkout_plain : ambiguous "/api/v1/billing/checkout" ≡ false
unfolding run_dispatch
checkout_plain = refl

checkout_not_me : matches auth_me (split_slash "/api/v1/billing/checkout") ≡ false
unfolding run_dispatch
checkout_not_me = refl

owner_of-is_direct_example : owner_of "POST" "/api/v1/billing/checkout" ≡ core
owner_of-is_direct_example =
    owner_of-is_direct "POST" "/api/v1/billing/checkout" checkout_direct checkout_plain
      checkout_not_me

run_tables : Unit {0}
unfolding is_handed is_image_read has_dots handed_rules postings_rules search_rules profiles_rules
    offers_rules blocks_rules posts_rules me_rules companies_rules consents_rules email_auth_rules
    phone_auth_rules apple_auth_rules matches_any reserved ambiguous matches decide split_slash
    applications_rules sources_rules images_rules evidence_rules experiments_rules interviews_rules
    projects_rules integrations_rules documents_rules
run_tables = tt

submissions_handed : is_handed "POST" "/api/v1/applications/7/submissions" ≡ true
unfolding run_tables
submissions_handed = refl

image_handed : is_handed "GET" "/api/v1/uploads/images/a.png" ≡ true
unfolding run_tables
image_handed = refl

image_plain : ambiguous "/api/v1/uploads/images/a.png" ≡ false
unfolding run_tables
image_plain = refl

image_free : matches_any reserved (split_slash "/api/v1/uploads/images/a.png") ≡ false
unfolding run_tables
image_free = refl

image_named : matches one_image (split_slash "/api/v1/uploads/images/a.png") ≡ true
unfolding run_tables
image_named = refl

owner_of-is_handed_example : owner_of "GET" "/api/v1/uploads/images/a.png" ≡ core
owner_of-is_handed_example =
    owner_of-is_handed "GET" "/api/v1/uploads/images/a.png" image_handed image_plain image_free
      (λ h. image_named)

-- The read of a name with a slash in it is core's, and the gateway gives it to no one.
deep_image_handed : is_handed "GET" "/api/v1/uploads/images/a/b" ≡ true
unfolding run_tables
deep_image_handed = refl

deep_image_denied : is_core "GET" (split_slash "/api/v1/uploads/images/a/b") ≡ false
unfolding run_tables is_core is_recruiting core_rules recruiting_rules
deep_image_denied = refl
