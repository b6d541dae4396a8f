-- ===== src/Composer.antt =====
-- The composer (brightbean-studio/apps/composer): posts, their per-account children, and the
-- service functions that create and move them.
pub mod Status
pub mod Services
pub mod Clone
