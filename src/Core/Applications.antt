-- ===== src/Core/Applications.antt =====
-- services/core-api/src/routes/applications.ts: the stages of a job application, its edits, and its
-- submission by a draft and an approval. What other requests do between the reads of a handler and its
-- one write is the argument `meanwhile`. Ids and times are numbers; the parts of a body are arguments
-- after their kinds were checked. The statements for a table without the newest column, the lists and
-- the fit score are left out.
pub mod Stages
pub mod Database
pub mod Rows
pub mod Edits
pub mod Submit
mod Examples
