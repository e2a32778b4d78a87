-- ===== src/Core/Dispatch/Tables/Accounts.antt =====
-- The routes of accounts, people and companies, each table in the order of its dispatcher: the files
-- email-auth.ts, phone-auth.ts, apple-auth.ts, notification-jobs.ts, me.ts, blocks.ts, consents.ts,
-- profiles.ts, offers.ts and companies.ts of services/core-api/src/routes. An optional part of an
-- expression is two lines, and a line that returns null is a gate.
use push_be.Prelude.{List, [], ◌∷◌}
use push_be.Routing.{lit, any, one_of, Rule, gate}
use push_be.Core.Dispatch.Verbs.{v1, get, post, patch, delete}

unfoldable pub email_auth_rules : List Rule
email_auth_rules =
    post (lit "auth" ∷ lit "email" ∷ lit "signup" ∷ [])
    ∷ post (lit "auth" ∷ lit "email" ∷ lit "verify" ∷ [])
    ∷ post (lit "auth" ∷ lit "email" ∷ lit "login" ∷ [])
    ∷ post (lit "auth" ∷ lit "email" ∷ lit "password-reset" ∷ [])
    ∷ post (lit "auth" ∷ lit "email" ∷ lit "password-reset" ∷ lit "confirm" ∷ [])
    ∷ []

unfoldable pub phone_auth_rules : List Rule
phone_auth_rules =
    post (lit "auth" ∷ lit "phone" ∷ lit "send" ∷ [])
    ∷ post (lit "auth" ∷ lit "phone" ∷ lit "verify" ∷ [])
    ∷ []

unfoldable pub apple_auth_rules : List Rule
apple_auth_rules =
    post (lit "auth" ∷ lit "apple" ∷ lit "callback" ∷ [])
    ∷ post (lit "auth" ∷ lit "apple" ∷ lit "native" ∷ [])
    ∷ []

unfoldable pub notification_job_rules : List Rule
notification_job_rules =
    post (lit "internal" ∷ lit "notifications" ∷ lit "ai-done" ∷ [])
    ∷ post (lit "internal" ∷ lit "notifications" ∷ lit "run" ∷ [])
    ∷ []

unfoldable pub me_rules : List Rule
me_rules =
    get (lit "me" ∷ lit "links" ∷ [])
    ∷ post (lit "me" ∷ lit "links" ∷ [])
    ∷ patch (lit "me" ∷ lit "links" ∷ any ∷ [])
    ∷ delete (lit "me" ∷ lit "links" ∷ any ∷ [])
    ∷ post (lit "me" ∷ lit "links" ∷ any ∷ lit "restore" ∷ [])
    ∷ post (lit "me" ∷ lit "devices" ∷ [])
    ∷ delete (lit "me" ∷ lit "devices" ∷ any ∷ [])
    ∷ get (lit "me" ∷ lit "notifications" ∷ lit "unread" ∷ [])
    ∷ get (lit "me" ∷ lit "notifications" ∷ [])
    ∷ post (lit "me" ∷ lit "notifications" ∷ lit "read" ∷ [])
    ∷ get (lit "me" ∷ lit "settings" ∷ [])
    ∷ patch (lit "me" ∷ lit "settings" ∷ [])
    ∷ get (lit "me" ∷ lit "bookmarks" ∷ [])
    ∷ get (lit "me" ∷ lit "posting-views" ∷ [])
    ∷ get (lit "me" ∷ lit "posting-document-status" ∷ [])
    ∷ get (lit "me" ∷ lit "suggested-experiences" ∷ [])
    ∷ get (lit "me" ∷ lit "career-topics" ∷ [])
    ∷ get (lit "me" ∷ lit "match-chips" ∷ [])
    ∷ []

unfoldable pub blocks_rules : List Rule
blocks_rules =
    post (lit "me" ∷ lit "blocks" ∷ [])
    ∷ get (lit "me" ∷ lit "blocks" ∷ [])
    ∷ delete (lit "me" ∷ lit "blocks" ∷ any ∷ [])
    ∷ []

unfoldable pub consents_rules : List Rule
consents_rules =
    gate ("PUT" ∷ []) (v1 (lit "me" ∷ lit "consents" ∷ lit "terms" ∷ []))
    ∷ gate ("GET" ∷ "PUT" ∷ []) (v1 (lit "me" ∷ lit "consents" ∷ []))
    ∷ []

unfoldable pub profiles_rules : List Rule
profiles_rules =
    get (lit "profiles" ∷ [])
    ∷ post (lit "profiles" ∷ any ∷ lit "offer" ∷ [])
    ∷ get (lit "profiles" ∷ any ∷ [])
    ∷ post (lit "users" ∷ any ∷ lit "follow" ∷ [])
    ∷ delete (lit "users" ∷ any ∷ lit "follow" ∷ [])
    ∷ get (lit "me" ∷ lit "profile" ∷ [])
    ∷ patch (lit "me" ∷ lit "profile" ∷ [])
    ∷ get (lit "me" ∷ lit "follows" ∷ [])
    ∷ get (lit "me" ∷ lit "followers" ∷ [])
    ∷ []

unfoldable pub offers_rules : List Rule
offers_rules =
    get (lit "me" ∷ lit "offers" ∷ [])
    ∷ get (lit "me" ∷ lit "offers" ∷ any ∷ lit "messages" ∷ [])
    ∷ post (lit "me" ∷ lit "offers" ∷ any ∷ lit "messages" ∷ [])
    ∷ post (lit "me" ∷ lit "offers" ∷ any ∷ lit "accept" ∷ [])
    ∷ post (lit "me" ∷ lit "offers" ∷ any ∷ lit "decline" ∷ [])
    ∷ post (lit "me" ∷ lit "offers" ∷ any ∷ one_of ("archive" ∷ "unarchive" ∷ []) ∷ [])
    ∷ post (lit "me" ∷ lit "offers" ∷ any ∷ lit "report" ∷ [])
    ∷ get (lit "me" ∷ lit "offers" ∷ any ∷ [])
    ∷ []

unfoldable pub companies_rules : List Rule
companies_rules =
    post (lit "companies" ∷ lit "verify" ∷ [])
    ∷ get (lit "companies" ∷ lit "me" ∷ [])
    ∷ patch (lit "companies" ∷ lit "me" ∷ [])
    ∷ get (lit "companies" ∷ lit "me" ∷ lit "members" ∷ [])
    ∷ get (lit "companies" ∷ lit "me" ∷ lit "invites" ∷ [])
    ∷ post (lit "companies" ∷ lit "me" ∷ lit "invites" ∷ [])
    ∷ get (lit "companies" ∷ lit "invites" ∷ any ∷ [])
    ∷ post (lit "companies" ∷ lit "invites" ∷ any ∷ lit "accept" ∷ [])
    ∷ gate ("DELETE" ∷ "PATCH" ∷ []) (v1 (lit "companies" ∷ lit "me" ∷ lit "members" ∷ any ∷ []))
    ∷ []
