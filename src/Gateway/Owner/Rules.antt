-- ===== src/Gateway/Owner/Rules.antt =====
-- The lines of `isPython`, `isCore` and `isRecruiting` in services/gateway/src/routes/owner.ts, in the
-- order of the source; a line that tests several paths is a rule for each, side by side.
use push_be.Prelude.{List, [], ◌∷◌}
use push_be.Routing.{Seg, lit, any, one_of, rest, Rule, allow, gate, open_to, except}

abbrev v1 : List Seg → List Seg
v1 p = lit "" ∷ lit "api" ∷ lit "v1" ∷ p

unfoldable pub python_rules : List Rule
python_rules =
    allow ("POST" ∷ []) (v1 (lit "ai" ∷ lit "generate" ∷ []))
    ∷ allow ("POST" ∷ []) (v1 (lit "applications" ∷ any ∷ lit "resume-run" ∷ []))
    ∷ allow ("POST" ∷ []) (v1 (lit "jobs" ∷ any ∷ lit "analyze" ∷ []))
    ∷ allow ("POST" ∷ []) (v1 (lit "interviews" ∷ any ∷ lit "prepare" ∷ []))
    ∷ allow ("POST" ∷ []) (v1 (lit "documents" ∷ any ∷ lit "revisions" ∷ []))
    ∷ allow ("GET" ∷ []) (v1 (lit "documents" ∷ any ∷ lit "versions" ∷ any ∷ lit "export" ∷ []))
    ∷ allow ("POST" ∷ []) (v1 (lit "career-evidence" ∷ lit "import" ∷ []))
    ∷ allow ("GET" ∷ []) (v1 (lit "sources" ∷ any ∷ lit "profile-draft" ∷ []))
    ∷ allow ("POST" ∷ []) (v1 (lit "projects" ∷ lit "blueprints" ∷ []))
    ∷ allow ("POST" ∷ []) (v1 (lit "projects" ∷ any ∷ lit "evidence" ∷ any ∷ lit "verify" ∷ []))
    ∷ allow ("GET" ∷ []) (v1 (lit "operations" ∷ any ∷ []))
    ∷ allow ("GET" ∷ []) (v1 (lit "operations" ∷ any ∷ lit "events" ∷ []))
    ∷ allow ("POST" ∷ []) (v1 (lit "operations" ∷ any ∷ one_of ("input" ∷ "cancel" ∷ []) ∷ []))
    ∷ gate ("GET" ∷ "POST" ∷ []) (v1 (lit "approvals" ∷ []))
    ∷ allow ("GET" ∷ []) (v1 (lit "approvals" ∷ any ∷ []))
    ∷ allow ("POST" ∷ []) (v1 (lit "approvals" ∷ any ∷ lit "decision" ∷ []))
    ∷ allow ("POST" ∷ []) (v1 (lit "conversations" ∷ any ∷ lit "share" ∷ []))
    ∷ allow ("GET" ∷ []) (v1 (lit "conversations" ∷ lit "shared" ∷ any ∷ []))
    ∷ allow ("GET" ∷ []) (v1 (lit "conversations" ∷ any ∷ lit "artifacts" ∷ []))
    ∷ allow ("GET" ∷ []) (v1 (lit "conversations" ∷ any ∷ lit "turns" ∷ []))
    ∷ []

unfoldable pub core_rules : List Rule
core_rules =
    allow ("GET" ∷ []) (v1 (lit "auth" ∷ any ∷ one_of ("start" ∷ "callback" ∷ []) ∷ []))
    ∷ allow ("POST" ∷ []) (v1 (lit "auth" ∷ lit "apple" ∷ lit "callback" ∷ []))
    ∷ allow ("POST" ∷ []) (v1 (lit "auth" ∷ lit "apple" ∷ lit "native" ∷ []))
    ∷ gate ("POST" ∷ []) (v1 (lit "auth" ∷ lit "exchange" ∷ []))
    ∷ gate ("POST" ∷ []) (v1 (lit "auth" ∷ lit "refresh" ∷ []))
    ∷ gate ("POST" ∷ []) (v1 (lit "auth" ∷ lit "logout" ∷ []))
    ∷ allow ("POST" ∷ []) (v1 (lit "auth" ∷ lit "email" ∷ lit "signup" ∷ []))
    ∷ allow ("POST" ∷ []) (v1 (lit "auth" ∷ lit "email" ∷ lit "verify" ∷ []))
    ∷ allow ("POST" ∷ []) (v1 (lit "auth" ∷ lit "email" ∷ lit "login" ∷ []))
    ∷ allow ("POST" ∷ []) (v1 (lit "auth" ∷ lit "email" ∷ lit "password-reset" ∷ []))
    ∷ allow ("POST" ∷ [])
        (v1 (lit "auth" ∷ lit "email" ∷ lit "password-reset" ∷ lit "confirm" ∷ []))
    ∷ allow ("POST" ∷ []) (v1 (lit "auth" ∷ lit "phone" ∷ lit "send" ∷ []))
    ∷ allow ("POST" ∷ []) (v1 (lit "auth" ∷ lit "phone" ∷ lit "verify" ∷ []))
    ∷ gate [] (v1 (lit "auth" ∷ lit "me" ∷ []))
    ∷ gate ("POST" ∷ []) (v1 (lit "conversations" ∷ []))
    ∷ gate ("PATCH" ∷ "DELETE" ∷ []) (v1 (lit "conversations" ∷ any ∷ []))
    ∷ gate ("POST" ∷ [])
        (v1 (lit "conversations" ∷ any ∷ one_of ("archive" ∷ "unarchive" ∷ []) ∷ []))
    ∷ gate ("POST" ∷ []) (v1 (lit "conversations" ∷ any ∷ lit "messages" ∷ []))
    ∷ gate ("POST" ∷ []) (v1 (lit "conversations" ∷ any ∷ lit "messages" ∷ lit "stream" ∷ []))
    ∷ gate ("POST" ∷ []) (v1 (lit "conversations" ∷ any ∷ lit "attachments" ∷ []))
    ∷ gate ("POST" ∷ []) (v1 (lit "conversations" ∷ any ∷ lit "approvals" ∷ any ∷ []))
    ∷ gate ("GET" ∷ []) (v1 (lit "billing" ∷ []))
    ∷ gate ("GET" ∷ []) (v1 (lit "billing" ∷ lit "ledger" ∷ []))
    ∷ gate ("POST" ∷ []) (v1 (lit "billing" ∷ lit "checkout" ∷ []))
    ∷ gate ("POST" ∷ []) (v1 (lit "billing" ∷ lit "portal" ∷ []))
    ∷ gate ("POST" ∷ []) (v1 (lit "billing" ∷ lit "webhook" ∷ []))
    ∷ gate ("POST" ∷ []) (v1 (lit "billing" ∷ lit "topup" ∷ []))
    ∷ gate ("POST" ∷ []) (v1 (lit "billing" ∷ lit "iap" ∷ lit "verify" ∷ []))
    ∷ gate ("POST" ∷ []) (v1 (lit "billing" ∷ lit "webhook" ∷ lit "app-store" ∷ []))
    ∷ gate ("POST" ∷ []) (v1 (lit "billing" ∷ lit "webhook" ∷ lit "google-play" ∷ []))
    ∷ gate ("GET" ∷ []) (v1 (lit "ai" ∷ lit "usage" ∷ []))
    ∷ gate ("GET" ∷ []) (v1 (lit "ai" ∷ lit "jobs" ∷ any ∷ []))
    ∷ gate ("POST" ∷ []) (v1 (lit "documents" ∷ any ∷ lit "generate" ∷ []))
    ∷ gate ("POST" ∷ []) (v1 (lit "documents" ∷ any ∷ lit "edits" ∷ []))
    ∷ gate ("GET" ∷ []) (v1 (lit "conversations" ∷ any ∷ lit "artifacts" ∷ any ∷ []))
    ∷ gate ("GET" ∷ "POST" ∷ []) (v1 (lit "documents" ∷ []))
    ∷ gate ("GET" ∷ "PATCH" ∷ []) (v1 (lit "documents" ∷ any ∷ []))
    ∷ gate ("GET" ∷ "POST" ∷ [])
        (v1 (lit "documents" ∷ any ∷ one_of ("versions" ∷ "exports" ∷ []) ∷ []))
    ∷ gate ("POST" ∷ []) (v1 (lit "documents" ∷ any ∷ lit "profile" ∷ []))
    ∷ gate ("POST" ∷ []) (v1 (lit "documents" ∷ any ∷ lit "base-profile" ∷ []))
    ∷ allow ("GET" ∷ []) (v1 (lit "documents" ∷ lit "shared" ∷ any ∷ []))
    ∷ gate ("POST" ∷ "DELETE" ∷ []) (v1 (lit "documents" ∷ any ∷ lit "share" ∷ []))
    ∷ gate ("GET" ∷ []) (v1 (lit "documents" ∷ any ∷ lit "versions" ∷ any ∷ []))
    ∷ gate ("POST" ∷ [])
        (v1 (lit "documents" ∷ any ∷ one_of ("review" ∷ "finalize" ∷ "archive" ∷ []) ∷ []))
    ∷ gate ("POST" ∷ []) (v1 (lit "documents" ∷ any ∷ lit "revisions" ∷ any ∷ lit "apply" ∷ []))
    ∷ gate ("POST" ∷ []) (v1 (lit "documents" ∷ any ∷ lit "exports" ∷ any ∷ lit "result" ∷ []))
    ∷ gate ("GET" ∷ "POST" ∷ []) (v1 (lit "sources" ∷ []))
    ∷ gate ("GET" ∷ "DELETE" ∷ []) (v1 (lit "sources" ∷ any ∷ []))
    ∷ gate ("GET" ∷ []) (v1 (lit "sources" ∷ any ∷ lit "content" ∷ []))
    ∷ gate ("POST" ∷ []) (v1 (lit "uploads" ∷ lit "images" ∷ []))
    ∷ gate ("GET" ∷ []) (v1 (lit "uploads" ∷ lit "images" ∷ any ∷ []))
    ∷ gate ("GET" ∷ "POST" ∷ []) (v1 (lit "career-evidence" ∷ []))
    ∷ except ("GET" ∷ []) (v1 (lit "career-evidence" ∷ any ∷ []))
        (v1 (lit "career-evidence" ∷ lit "import" ∷ []))
    ∷ gate ("POST" ∷ []) (v1 (lit "career-evidence" ∷ any ∷ lit "archive" ∷ []))
    ∷ gate ("GET" ∷ [])
        (v1 (lit "experiments" ∷ any ∷ one_of ("assignment" ∷ "stats" ∷ "results" ∷ []) ∷ []))
    ∷ gate ("POST" ∷ []) (v1 (lit "experiments" ∷ any ∷ lit "events" ∷ []))
    ∷ gate ("GET" ∷ "POST" ∷ []) (v1 (lit "interviews" ∷ []))
    ∷ gate ("GET" ∷ "PATCH" ∷ []) (v1 (lit "interviews" ∷ any ∷ []))
    ∷ gate ("GET" ∷ []) (v1 (lit "projects" ∷ []))
    ∷ except ("GET" ∷ []) (v1 (lit "projects" ∷ any ∷ []))
        (v1 (lit "projects" ∷ lit "blueprints" ∷ []))
    ∷ gate ("POST" ∷ []) (v1 (lit "projects" ∷ any ∷ lit "select" ∷ []))
    ∷ gate ("GET" ∷ "POST" ∷ [])
        (v1 (lit "projects" ∷ any ∷ one_of ("runs" ∷ "evidence" ∷ []) ∷ []))
    ∷ gate ("POST" ∷ []) (
        v1 (
          lit "projects"
          ∷ any
          ∷ lit "runs"
          ∷ any
          ∷ one_of ("start" ∷ "launch" ∷ "recover" ∷ "result" ∷ [])
          ∷ []))
    ∷ gate ("GET" ∷ "DELETE" ∷ []) (v1 (lit "integrations" ∷ lit "google" ∷ []))
    ∷ gate ("POST" ∷ []) (
        v1 (lit "integrations" ∷ lit "google" ∷ one_of ("connect" ∷ "complete" ∷ "sync" ∷ []) ∷ []))
    ∷ gate ("GET" ∷ []) (
        v1 (
          lit "integrations"
          ∷ lit "google"
          ∷ one_of ("callback" ∷ "messages" ∷ "events" ∷ [])
          ∷ []))
    ∷ gate ("POST" ∷ [])
        (v1 (lit "integrations" ∷ lit "google" ∷ lit "messages" ∷ any ∷ lit "link" ∷ []))
    ∷ gate ("GET" ∷ "POST" ∷ []) (v1 (lit "applications" ∷ []))
    ∷ gate ("POST" ∷ []) (v1 (lit "applications" ∷ lit "import" ∷ []))
    ∷ gate ("GET" ∷ "PATCH" ∷ []) (v1 (lit "applications" ∷ any ∷ []))
    ∷ gate ("GET" ∷ [])
        (v1 (lit "applications" ∷ any ∷ one_of ("timeline" ∷ "checklist" ∷ []) ∷ []))
    ∷ gate ("POST" ∷ []) (v1 (lit "applications" ∷ any ∷ lit "submission-drafts" ∷ []))
    ∷ gate ("GET" ∷ "POST" ∷ []) (v1 (lit "applications" ∷ any ∷ lit "submissions" ∷ []))
    ∷ gate ("GET" ∷ "POST" ∷ []) (v1 (lit "jobs" ∷ []))
    ∷ gate ("GET" ∷ []) (v1 (lit "jobs" ∷ any ∷ lit "analyses" ∷ []))
    ∷ gate ("GET" ∷ "PATCH" ∷ []) (v1 (lit "jobs" ∷ any ∷ []))
    ∷ gate ("GET" ∷ "POST" ∷ []) (v1 (lit "calendar" ∷ lit "events" ∷ []))
    ∷ gate ("PATCH" ∷ "DELETE" ∷ []) (v1 (lit "calendar" ∷ lit "events" ∷ any ∷ []))
    ∷ allow ("POST" ∷ []) (v1 (lit "internal" ∷ lit "notifications" ∷ lit "ai-done" ∷ []))
    ∷ allow ("POST" ∷ []) (v1 (lit "internal" ∷ lit "notifications" ∷ lit "run" ∷ []))
    ∷ open_to (v1 (lit "companies" ∷ rest ∷ []))
    ∷ []

unfoldable pub recruiting_rules : List Rule
recruiting_rules =
    open_to (v1 (lit "postings" ∷ rest ∷ []))
    ∷ open_to (v1 (lit "skills" ∷ []))
    ∷ open_to (v1 (lit "search" ∷ []))
    ∷ open_to (v1 (lit "search" ∷ lit "counts" ∷ []))
    ∷ open_to (v1 (lit "search" ∷ lit "trending" ∷ []))
    ∷ open_to (v1 (lit "profiles" ∷ rest ∷ []))
    ∷ open_to (v1 (lit "users" ∷ any ∷ lit "follow" ∷ []))
    ∷ open_to (v1 (lit "me" ∷ rest ∷ []))
    ∷ open_to (v1 (lit "posts" ∷ rest ∷ []))
    ∷ []
