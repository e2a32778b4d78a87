-- ===== src/Core.antt =====
-- The core Worker `push-be-core`: services/core-api/src. Who a request is served as, the act-as routes
-- of the AI worker, sessions, the job queue with its credits, idempotent requests, offers, sign-in codes,
-- applications, pages of lists, documents, and the routes of `dispatch`.
pub mod ActAs
pub mod Jobs
pub mod Requests
pub mod Offers
pub mod Phone
pub mod Dispatch
pub mod Applications
pub mod Pages
pub mod Content
pub mod Sessions
pub mod Entry
pub mod Projects
pub mod Companies
mod Examples
