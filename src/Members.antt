-- ===== src/Members.antt =====
-- Members of an organization and of its workspaces (brightbean-studio/apps/members).
pub mod Roles
pub mod Services
pub mod Workspaces
pub mod OrgPermissions
pub mod Invitations
mod Examples
