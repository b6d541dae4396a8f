-- ===== src/Publisher.antt =====
-- The publishing engine (brightbean-studio/apps/publisher): the loop that sends due channels to
-- their platforms, with retries.
pub mod Attempt
pub mod Engine
pub mod Laws
pub mod Frames
pub mod Holds
pub mod Clones
mod Examples
