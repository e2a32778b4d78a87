-- ===== src/Lib.antt =====
-- A model of push-be: the gateway Worker (services/gateway/src), which admits requests, and the core
-- Worker (services/core-api/src), which answers most of them. The gateway limits each user by leases on
-- a row that all its isolates and the Python worker share, checks the token of a request, and chooses
-- the worker that answers a path; core takes calls that the AI worker makes for a user, and queues
-- jobs against the credits of their owner.
--
-- Prelude holds the tests on numbers, lists, signed integers and the association lists (Dict) that
-- stand for a `Map`. Routing is the language of the route tables: a rule names methods, a pattern of
-- path segments and an answer, and Routing/Symbolic decides questions about all the paths of a pattern,
-- Routing/Chosen finds the line that answered.
--
-- Gateway/Owner: routes/owner.ts; the regular expressions are patterns, one rule for each line.
-- Gateway/Cache: `createIsolateCache` of middleware/cache.ts.
-- Gateway/Counter: the statements RATE_SQL, AUTH_RATE_PREFIX and RELEASE_SQL of middleware/ratelimit.ts
--   on one row. Gateway/Lease: the functions of that file on the leases of an isolate; a timer is
--   split where the code awaits. Gateway/Window: `allow`.
-- Gateway/Auth: `tokenContext` of middleware/auth.ts, for a digest that may throw.
-- Gateway/Quota: the steps of all isolates, of the statements in flight and of the Python worker on one
--   bucket, in any order; a request that an isolate decides alone is a step too, and is counted apart.
-- Core/ActAs: internal-auth.ts. Core/Jobs: jobs/config.ts, jobs/credits.ts, jobs/enqueue.ts,
--   jobs/backpressure.ts and billing/credits.ts, over tables that hold the columns these statements use.
-- Core/Requests: `idempotent` of handler.ts, split where it awaits the route; Requests/Laws has
--   the statements of all requests in any order. Core/Offers: routes/offers.ts; what other requests do
--   between two statements of a handler is an argument.
-- Core/Phone: routes/phone-auth.ts, up to the account that a code signs in.
-- Core/Entry: `handle`, `isPublic` and `isGuestRead` of handler.ts: the user that a request is served
--   as, from Core/ActAs and Core/Sessions. Core/Dispatch: the routes that `dispatch` answers itself, and in
--   Tables those of each file of routes that it asks; Routing/Pruned leaves out of a table the lines
--   that a pattern cannot meet.
-- Core/Sessions: the tokens of routes/auth.ts, their rotation and reuse.
-- Core/Applications: routes/applications.ts: stages, edits, submission drafts and submissions; Rows has
--   the revision of a row as a lock. Core/Pages: page.ts. Core/Content: document-content.ts, with a
--   tree of nodes in a mutual block. Core/Projects: the runs of routes/projects.ts.
-- Core/Companies: the members, invites and seats of routes/companies.ts.
--
-- Each statement of the database is one step. Numbers are the natural numbers, and the integers for
-- credits and exit codes. No loop needs fuel, since each runs over a list or a tree that it takes
-- apart; reading a list page by page is bounded by the number of its rows; the retry of `idempotent`
-- draws from a list of ids. Digests, UUIDs, new ids and the time are arguments. Headers, CORS, JSON and
-- the network are left out, as are the Python service, the generated contracts and the routes of core
-- that only move rows.
pub mod Prelude
pub mod Routing
pub mod Gateway
pub mod Core
