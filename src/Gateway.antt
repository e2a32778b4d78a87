-- ===== src/Gateway.antt =====
-- The gateway Worker `push-be`: services/gateway/src. Its shared rate-limit lease, its token check,
-- and the choice of the worker that answers a path.
pub mod Owner
pub mod Cache
pub mod Counter
pub mod Lease
pub mod Window
pub mod Auth
pub mod Quota
mod Examples
