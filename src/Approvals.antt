-- ===== src/Approvals.antt =====
-- The approval workflow (brightbean-studio/apps/approvals): decisions of reviewers and clients on a
-- whole post or on one of its channels.
pub mod Rows
pub mod Notices
pub mod Reminders
pub mod Services
pub mod Laws
pub mod Stages
pub mod Bulk
pub mod Comments
mod Examples
