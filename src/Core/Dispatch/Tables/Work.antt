-- ===== src/Core/Dispatch/Tables/Work.antt =====
-- The routes of postings, posts and the work on applications, each table in the order of its
-- dispatcher: the files postings.ts, search.ts, posts.ts, applications.ts, sources.ts, images.ts,
-- evidence.ts, experiments.ts, interviews.ts, projects.ts, integrations.ts and documents.ts of
-- services/core-api/src/routes. An optional part of an expression is two lines, and a line that returns
-- null is a gate. The reads of images, whose path must not hold `..`, are not listed.
use push_be.Prelude.{List, [], ◌∷◌}
use push_be.Routing.{lit, any, one_of, Rule, gate}
use push_be.Core.Dispatch.Verbs.{v1, get, post, patch, delete}

unfoldable pub postings_rules : List Rule
postings_rules =
    get (lit "postings" ∷ [])
    ∷ post (lit "postings" ∷ [])
    ∷ get (lit "postings" ∷ lit "facets" ∷ [])
    ∷ get (lit "skills" ∷ [])
    ∷ get (lit "postings" ∷ lit "locations" ∷ [])
    ∷ post (lit "postings" ∷ any ∷ lit "bookmark" ∷ [])
    ∷ delete (lit "postings" ∷ any ∷ lit "bookmark" ∷ [])
    ∷ post (lit "postings" ∷ any ∷ lit "apply" ∷ [])
    ∷ get (lit "companies" ∷ lit "me" ∷ lit "postings" ∷ [])
    ∷ post (lit "postings" ∷ any ∷ lit "close" ∷ [])
    ∷ get (lit "postings" ∷ any ∷ lit "applicants" ∷ any ∷ lit "files" ∷ any ∷ [])
    ∷ get (lit "postings" ∷ any ∷ lit "applicants" ∷ any ∷ [])
    ∷ patch (lit "postings" ∷ any ∷ lit "applicants" ∷ any ∷ [])
    ∷ get (lit "postings" ∷ any ∷ lit "applicants" ∷ [])
    ∷ get (lit "postings" ∷ any ∷ lit "applicant-counts" ∷ [])
    ∷ get (lit "postings" ∷ any ∷ [])
    ∷ patch (lit "postings" ∷ any ∷ [])
    ∷ []

unfoldable pub search_rules : List Rule
search_rules =
    get (lit "search" ∷ lit "counts" ∷ [])
    ∷ get (lit "search" ∷ lit "trending" ∷ [])
    ∷ get (lit "search" ∷ [])
    ∷ []

unfoldable pub posts_rules : List Rule
posts_rules =
    get (lit "me" ∷ lit "posts" ∷ [])
    ∷ get (lit "me" ∷ lit "commented-posts" ∷ [])
    ∷ get (lit "posts" ∷ [])
    ∷ post (lit "posts" ∷ [])
    ∷ get (lit "posts" ∷ any ∷ lit "comments" ∷ [])
    ∷ post (lit "posts" ∷ any ∷ lit "comments" ∷ [])
    ∷ get (lit "posts" ∷ any ∷ [])
    ∷ []

unfoldable pub applications_rules : List Rule
applications_rules =
    gate ("GET" ∷ "POST" ∷ []) (v1 (lit "applications" ∷ []))
    ∷ gate ("POST" ∷ []) (v1 (lit "applications" ∷ lit "import" ∷ []))
    ∷ get (lit "applications" ∷ any ∷ [])
    ∷ patch (lit "applications" ∷ any ∷ [])
    ∷ get (lit "applications" ∷ any ∷ lit "timeline" ∷ [])
    ∷ get (lit "applications" ∷ any ∷ lit "checklist" ∷ [])
    ∷ post (lit "applications" ∷ any ∷ lit "submission-drafts" ∷ [])
    ∷ post (lit "applications" ∷ any ∷ lit "submissions" ∷ [])
    ∷ get (lit "applications" ∷ any ∷ lit "submissions" ∷ [])
    ∷ []

unfoldable pub sources_rules : List Rule
sources_rules =
    gate ("GET" ∷ "POST" ∷ []) (v1 (lit "sources" ∷ []))
    ∷ get (lit "sources" ∷ any ∷ lit "content" ∷ [])
    ∷ get (lit "sources" ∷ any ∷ [])
    ∷ delete (lit "sources" ∷ any ∷ [])
    ∷ []

-- dispatchImages without the reads, which are is_image_read.
unfoldable pub images_rules : List Rule
images_rules = gate ("POST" ∷ []) (v1 (lit "uploads" ∷ lit "images" ∷ [])) ∷ []

unfoldable pub evidence_rules : List Rule
evidence_rules =
    gate ("GET" ∷ "POST" ∷ []) (v1 (lit "career-evidence" ∷ []))
    ∷ gate ([]) (v1 (lit "career-evidence" ∷ lit "import" ∷ []))
    ∷ get (lit "career-evidence" ∷ any ∷ [])
    ∷ post (lit "career-evidence" ∷ any ∷ lit "archive" ∷ [])
    ∷ []

unfoldable pub experiments_rules : List Rule
experiments_rules =
    get (lit "experiments" ∷ any ∷ lit "assignment" ∷ [])
    ∷ post (lit "experiments" ∷ any ∷ lit "events" ∷ [])
    ∷ get (lit "experiments" ∷ any ∷ lit "stats" ∷ [])
    ∷ get (lit "experiments" ∷ any ∷ lit "results" ∷ [])
    ∷ []

unfoldable pub interviews_rules : List Rule
interviews_rules =
    gate ("GET" ∷ "POST" ∷ []) (v1 (lit "interviews" ∷ []))
    ∷ get (lit "interviews" ∷ any ∷ [])
    ∷ patch (lit "interviews" ∷ any ∷ [])
    ∷ []

unfoldable pub projects_rules : List Rule
projects_rules =
    gate ("GET" ∷ []) (v1 (lit "projects" ∷ []))
    ∷ gate ([]) (v1 (lit "projects" ∷ lit "blueprints" ∷ []))
    ∷ post (
        lit "projects"
        ∷ any
        ∷ lit "runs"
        ∷ any
        ∷ one_of ("start" ∷ "launch" ∷ "recover" ∷ "result" ∷ [])
        ∷ [])
    ∷ get (lit "projects" ∷ any ∷ [])
    ∷ post (lit "projects" ∷ any ∷ lit "select" ∷ [])
    ∷ get (lit "projects" ∷ any ∷ lit "runs" ∷ [])
    ∷ post (lit "projects" ∷ any ∷ lit "runs" ∷ [])
    ∷ get (lit "projects" ∷ any ∷ lit "evidence" ∷ [])
    ∷ post (lit "projects" ∷ any ∷ lit "evidence" ∷ [])
    ∷ []

unfoldable pub integrations_rules : List Rule
integrations_rules =
    get (lit "integrations" ∷ lit "google" ∷ [])
    ∷ delete (lit "integrations" ∷ lit "google" ∷ [])
    ∷ post (lit "integrations" ∷ lit "google" ∷ lit "connect" ∷ [])
    ∷ get (lit "integrations" ∷ lit "google" ∷ lit "callback" ∷ [])
    ∷ post (lit "integrations" ∷ lit "google" ∷ lit "complete" ∷ [])
    ∷ post (lit "integrations" ∷ lit "google" ∷ lit "sync" ∷ [])
    ∷ get (lit "integrations" ∷ lit "google" ∷ lit "messages" ∷ [])
    ∷ get (lit "integrations" ∷ lit "google" ∷ lit "events" ∷ [])
    ∷ post (lit "integrations" ∷ lit "google" ∷ lit "messages" ∷ any ∷ lit "link" ∷ [])
    ∷ []

unfoldable pub documents_rules : List Rule
documents_rules =
    gate ("GET" ∷ "POST" ∷ []) (v1 (lit "documents" ∷ []))
    ∷ gate ("GET" ∷ "POST" ∷ []) (v1 (lit "documents" ∷ any ∷ lit "versions" ∷ []))
    ∷ gate ("GET" ∷ []) (v1 (lit "documents" ∷ any ∷ lit "versions" ∷ any ∷ []))
    ∷ post (lit "documents" ∷ any ∷ lit "revisions" ∷ any ∷ lit "apply" ∷ [])
    ∷ post (lit "documents" ∷ any ∷ lit "exports" ∷ any ∷ lit "result" ∷ [])
    ∷ get (lit "documents" ∷ lit "shared" ∷ any ∷ [])
    ∷ post (lit "documents" ∷ any ∷ lit "share" ∷ [])
    ∷ delete (lit "documents" ∷ any ∷ lit "share" ∷ [])
    ∷ post (lit "documents" ∷ any ∷ lit "base-profile" ∷ [])
    ∷ post (lit "documents" ∷ any ∷ lit "profile" ∷ [])
    ∷ get (lit "documents" ∷ any ∷ [])
    ∷ patch (lit "documents" ∷ any ∷ [])
    ∷ post (lit "documents" ∷ any ∷ lit "edits" ∷ [])
    ∷ post (lit "documents" ∷ any ∷ lit "review" ∷ [])
    ∷ post (lit "documents" ∷ any ∷ lit "finalize" ∷ [])
    ∷ post (lit "documents" ∷ any ∷ lit "archive" ∷ [])
    ∷ get (lit "documents" ∷ any ∷ lit "exports" ∷ [])
    ∷ post (lit "documents" ∷ any ∷ lit "exports" ∷ [])
    ∷ []
