-- ===== src/Calendar.antt =====
-- The content calendar's queues (brightbean-studio/apps/calendar): posting slots and which of them
-- are taken.
pub mod Slots
pub mod Occupied
pub mod Queues
pub mod Reorder
pub mod Prioritize
pub mod Repair
pub mod Defaults
pub mod Gaps
mod Examples
