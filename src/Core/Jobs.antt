-- ===== src/Core/Jobs.antt =====
-- The job queue of core: services/core-api/src/jobs, with the plan credits of billing/credits.ts.
pub mod Config
pub mod Database
pub mod Credits
pub mod Enqueue
