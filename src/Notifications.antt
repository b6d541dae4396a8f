-- ===== src/Notifications.antt =====
-- Notifications (brightbean-studio/apps/notifications): what `notify` stores and sends, and the
-- retries of what did not get through.
pub mod Events
pub mod Delivery
pub mod Engine
pub mod Laws
mod Examples
