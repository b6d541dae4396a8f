-- ===== src/Media.antt =====
-- Files that users upload: brightbean-studio/apps/media_library.
pub mod Validators
pub mod Quotas
pub mod Assets
pub mod Stock
pub mod Laws
pub mod Examples
