-- ===== src/Core/Dispatch.antt =====
-- `dispatch` of services/core-api/src/handler.ts: the routes that it answers itself, in its order. The
-- routes that it hands to another file are in Tables.
pub mod Verbs
pub mod Images
pub mod Tables
pub mod Reachable
mod Examples
use push_be.Prelude.{String, Bool, true, false, Option, none, some, List, [], ◌∷◌}
use push_be.Routing.{lit, any, one_of, split_slash, Rule, decide}
use push_be.Core.Dispatch.Verbs.{get, post, patch, delete}

unfoldable pub direct_rules : List Rule
direct_rules =
    get (lit "auth" ∷ any ∷ one_of ("start" ∷ "callback" ∷ []) ∷ [])
    ∷ post (lit "auth" ∷ lit "exchange" ∷ [])
    ∷ post (lit "auth" ∷ lit "refresh" ∷ [])
    ∷ post (lit "auth" ∷ lit "logout" ∷ [])
    ∷ get (lit "auth" ∷ lit "me" ∷ [])
    ∷ delete (lit "me" ∷ [])
    ∷ post (lit "conversations" ∷ [])
    ∷ patch (lit "conversations" ∷ any ∷ [])
    ∷ delete (lit "conversations" ∷ any ∷ [])
    ∷ post (lit "conversations" ∷ any ∷ lit "archive" ∷ [])
    ∷ post (lit "conversations" ∷ any ∷ lit "unarchive" ∷ [])
    ∷ post (lit "conversations" ∷ any ∷ lit "messages" ∷ [])
    ∷ post (lit "conversations" ∷ any ∷ lit "messages" ∷ lit "stream" ∷ [])
    ∷ post (lit "conversations" ∷ any ∷ lit "attachments" ∷ [])
    ∷ post (lit "conversations" ∷ any ∷ lit "approvals" ∷ any ∷ [])
    ∷ get (lit "conversations" ∷ any ∷ lit "artifacts" ∷ any ∷ [])
    ∷ get (lit "billing" ∷ [])
    ∷ post (lit "billing" ∷ lit "checkout" ∷ [])
    ∷ post (lit "billing" ∷ lit "topup" ∷ [])
    ∷ post (lit "billing" ∷ lit "portal" ∷ [])
    ∷ post (lit "billing" ∷ lit "iap" ∷ lit "verify" ∷ [])
    ∷ get (lit "billing" ∷ lit "ledger" ∷ [])
    ∷ post (lit "billing" ∷ lit "webhook" ∷ [])
    ∷ post (lit "billing" ∷ lit "webhook" ∷ lit "app-store" ∷ [])
    ∷ post (lit "billing" ∷ lit "webhook" ∷ lit "google-play" ∷ [])
    ∷ get (lit "ai" ∷ lit "usage" ∷ [])
    ∷ get (lit "ai" ∷ lit "jobs" ∷ any ∷ [])
    ∷ post (lit "documents" ∷ any ∷ lit "generate" ∷ [])
    ∷ post (lit "postings" ∷ any ∷ lit "fit" ∷ [])
    ∷ get (lit "jobs" ∷ [])
    ∷ post (lit "jobs" ∷ [])
    ∷ get (lit "jobs" ∷ any ∷ lit "analyses" ∷ [])
    ∷ get (lit "jobs" ∷ any ∷ [])
    ∷ patch (lit "jobs" ∷ any ∷ [])
    ∷ get (lit "calendar" ∷ lit "events" ∷ [])
    ∷ post (lit "calendar" ∷ lit "events" ∷ [])
    ∷ patch (lit "calendar" ∷ lit "events" ∷ any ∷ [])
    ∷ delete (lit "calendar" ∷ lit "events" ∷ any ∷ [])
    ∷ []

abbrev pub said_yes : Option Bool → Bool
said_yes (some true) = true
said_yes _ = false

unfoldable pub is_direct : String → String → Bool
is_direct method path = said_yes (decide method (split_slash path) direct_rules)
