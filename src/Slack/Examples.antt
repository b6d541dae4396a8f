-- ===== src/Slack/Examples.antt =====
-- Tests and examples of the analytics bot: one team, one channel, two users.
use bright_bean_paysys.Common.{
  ℕ, ◌≡◌, refl, ◌⊎◌, Bool, true, false, none, some, List, [], ◌∷◌, any, ok, err,
}
use bright_bean_paysys.Store.{Workspace, ApprovalWorkflowMode}
use bright_bean_paysys.Samples.{a_workspace, an_account}
use bright_bean_paysys.Members.Roles.{
  WorkspaceMembership, WorkspaceRole, effective_permissions, builtin_permissions,
}
use bright_bean_paysys.Members.Services.{OrgRole}
use bright_bean_paysys.ApiKeys.Token.{Codes, same}
use bright_bean_paysys.Slack.Directory.{
  SlackAnalyticsRequest, ToolContext, BrightbeanUser, active, revoked, read_only, Tables,
  user_not_mapped,
}
use bright_bean_paysys.Slack.Authorization.{
  context_for_user, context_in_workspace, resolve_tool_context,
}
use bright_bean_paysys.Slack.Authorization.Laws.{IsAuthorized, resolve_tool_context-IsAuthorized}
use bright_bean_paysys.Slack.Access.{
  strip, is_valid_member_id, is_user_approved, grant_action, act, audit, grant_user_access,
  configure_administrator, grant_one, grant_each, bulk_audit, grant_bulk_user_access,
}
use bright_bean_paysys.Slack.Access.Bulk.{grant_bulk_user_access-approvals}
use bright_bean_paysys.Slack.Access.Administrator.{
  IsConfigured, configure_administrator-IsConfigured,
}
use bright_bean_paysys.Slack.Provisioning.{
  Grant, address, no_view_analytics, refusal, present, with_chain, mapped_user, user_by_email,
  resolve_user, who_and_where, grant_access, provision, grant_slack_analytics_access,
  is_active_admin,
}
use bright_bean_paysys.Slack.Provisioning.Laws.{
  succeeds, IsProvisioned, grant_slack_analytics_access-IsProvisioned,
  grant_slack_analytics_access-undone,
}
use bright_bean_paysys.Slack.Provisioning.Scope.{IsScoped, grant_slack_analytics_access-IsScoped}

abbrev team : Codes
team = b'T' ∷ b'1' ∷ []

abbrev channel : Codes
channel = b'C' ∷ b'1' ∷ []

abbrev slack_admin : Codes
slack_admin = b'U' ∷ b'9' ∷ []

abbrev slack_user : Codes
slack_user = b'U' ∷ b'5' ∷ []

abbrev slack_guest : Codes
slack_guest = b'W' ∷ b'6' ∷ []

abbrev a_request : Codes → SlackAnalyticsRequest
a_request who = record {
  correlation_id = b'k' ∷ [];
  event_id = b'e' ∷ [];
  team_id = team;
  channel_id = channel;
  user_id = who;
  thread_ts = [];
  text = b'?' ∷ [];
}

abbrev the_workspace : Workspace
the_workspace = a_workspace ApprovalWorkflowMode.unrestricted

abbrev user_row : ℕ → BrightbeanUser
user_row k = record { id = k; email = k; is_active = true }

abbrev member_row : ℕ → WorkspaceRole → WorkspaceMembership
member_row k role = record { user = k; workspace_id = 1; workspace_role = role; custom_role = none }

-- User 5 is in; user 6 has no row of the chain, user 7 is a contributor of the workspace only.
abbrev the_tables : Tables
the_tables = record {
  users = user_row 5 ∷ user_row 6 ∷ user_row 7 ∷ [];
  org_memberships =
      record { id = 1; user = 5; email = 5; organization = 9; org_role = OrgRole.member } ∷ [];
  memberships = member_row 5 WorkspaceRole.viewer ∷ member_row 7 WorkspaceRole.contributor ∷ [];
  social_accounts = an_account ∷ [];
  channel_mappings =
      record { team_id = team; channel_id = channel; workspace = the_workspace } ∷ [];
  user_mappings = record { slack_user_id = slack_user; team_id = team; user = user_row 5 } ∷ [];
  administrators =
      record { workspace_id = team; slack_user_id = slack_admin; status = active } ∷ [];
  accesses =
      record {
        workspace_id = team;
        slack_user_id = slack_user;
        status = revoked;
        permission = read_only;
        granted_by_slack_user_id = slack_admin;
        revoked_at = some 3;
      }
      ∷ [];
  audit_logs = [];
}

abbrev pub the_context : ToolContext
the_context = record {
  workspace_id = 1;
  user_id = 5;
  organization_id = 9;
  allowed_account_ids = 3 ∷ [];
  slack_team_id = team;
  slack_channel_id = channel;
}

resolved : resolve_tool_context team (a_request slack_user) the_tables ≡ ok the_context
unfolding resolve_tool_context context_in_workspace context_for_user same effective_permissions
    builtin_permissions
resolved = refl

unmapped : resolve_tool_context [] (a_request slack_guest) the_tables ≡ err user_not_mapped
unfolding resolve_tool_context context_in_workspace context_for_user same
unmapped = refl

resolve_tool_context-IsAuthorized_example :
    IsAuthorized team (a_request slack_user) the_tables the_context
resolve_tool_context-IsAuthorized_example =
    resolve_tool_context-IsAuthorized team (a_request slack_user) the_tables resolved

-- A bulk grant: user 5 twice, once with a space, and a text that is no member id.
abbrev some_ids : List Codes
some_ids = slack_user ∷ (32 ∷ slack_user) ∷ slack_guest ∷ channel ∷ []

abbrev never : Codes → Bool
never _ = false

bulk_answer : (grant_bulk_user_access never team some_ids slack_admin the_tables).0 ≡ record {
  approved = slack_guest ∷ [];
  restored = slack_user ∷ [];
  already_approved = [];
  invalid = channel ∷ [];
  failed = [];
}
unfolding grant_bulk_user_access grant_each grant_one bulk_audit grant_user_access grant_action act
    audit strip is_valid_member_id same
bulk_answer = refl

grant_bulk_user_access-approvals_example :
    is_user_approved team slack_guest
      (grant_bulk_user_access never team some_ids slack_admin the_tables).1
    ≡ true
unfolding is_user_approved strip is_valid_member_id same
grant_bulk_user_access-approvals_example =
    grant_bulk_user_access-approvals never team some_ids slack_admin the_tables team slack_guest

configure_administrator-IsConfigured_example :
    IsConfigured team slack_guest the_tables (configure_administrator team slack_guest the_tables)
configure_administrator-IsConfigured_example =
    configure_administrator-IsConfigured team slack_guest the_tables

abbrev a_grant : Codes → ℕ → Grant
a_grant who email = record {
  approving_slack_user_id = slack_admin;
  team_id = team;
  source_channel_id = channel;
  target_slack_user_id = who;
  brightbean_email = address email;
}

granted_guest :
    succeeds (grant_slack_analytics_access [] 2 (a_grant slack_guest 6) the_tables).0 ≡ true
unfolding grant_slack_analytics_access provision grant_access who_and_where resolve_user mapped_user
    user_by_email present with_chain grant_action act resolve_tool_context context_in_workspace
    context_for_user same effective_permissions builtin_permissions
granted_guest = refl

refused_contributor :
    succeeds (grant_slack_analytics_access [] 2 (a_grant slack_guest 7) the_tables).0 ≡ false
unfolding grant_slack_analytics_access provision grant_access who_and_where resolve_user mapped_user
    user_by_email present with_chain grant_action act resolve_tool_context context_in_workspace
    context_for_user same effective_permissions builtin_permissions
refused_contributor = refl

-- The refused contributor is a member of the organization all the same.
kept_membership :
    (grant_slack_analytics_access [] 2 (a_grant slack_guest 7) the_tables).1.org_memberships
    ≡ record { id = 1; user = 5; email = 5; organization = 9; org_role = OrgRole.member }
      ∷ record { id = 2; user = 7; email = 7; organization = 9; org_role = OrgRole.member }
      ∷ []
unfolding grant_slack_analytics_access provision grant_access who_and_where resolve_user mapped_user
    user_by_email present with_chain grant_action act resolve_tool_context context_in_workspace
    context_for_user same effective_permissions builtin_permissions
kept_membership = refl

grant_slack_analytics_access-IsProvisioned_example :
    IsProvisioned []
      (a_grant slack_guest 6)
      (grant_slack_analytics_access [] 2 (a_grant slack_guest 6) the_tables).1
grant_slack_analytics_access-IsProvisioned_example =
    grant_slack_analytics_access-IsProvisioned [] 2 (a_grant slack_guest 6) the_tables granted_guest

grant_slack_analytics_access-undone_example :
    let x = grant_slack_analytics_access [] 2 (a_grant slack_guest 7) the_tables in
    (x.1 ≡ the_tables)
    ⊎ ((x.0 ≡ refusal (a_grant slack_guest 7) no_view_analytics)
        × (x.1.accesses ≡ the_tables.accesses))
grant_slack_analytics_access-undone_example =
    grant_slack_analytics_access-undone [] 2 (a_grant slack_guest 7) the_tables refused_contributor

grant_slack_analytics_access-IsScoped_example :
    let t = (grant_slack_analytics_access [] 2 (a_grant slack_guest 6) the_tables).1 in
    IsScoped (a_grant slack_guest 6) the_tables t
    × ((t ≡ the_tables) ⊎ (any (is_active_admin team slack_admin) the_tables.administrators ≡ true))
grant_slack_analytics_access-IsScoped_example =
    grant_slack_analytics_access-IsScoped [] 2 (a_grant slack_guest 6) the_tables
