-- ===== src/Api.antt =====
-- The agent API's limits (brightbean-studio/apps/api/limits.py).
pub mod Quota
pub mod Throttle
pub mod Auth
mod Examples
