-- ===== src/Slack/Authorization.antt =====
-- brightbean-studio/apps/slack_bot/authorization.py: from a Slack request to the context in which
-- the tools may read analytics.
pub mod Laws
use bright_bean_paysys.Common.{
  ℕ, Bool, true, false, not, ◌&&◌, ◌||◌, Option, none, some, List, [], ◌∷◌, ◌==◌, any, all, filter,
  find, is_empty, if◌then◌else◌, Result, ok, err, ◌>>=◌, ◌>>◌, raise_if,
}
use bright_bean_paysys.Store.{
  Workspace, SocialAccount, ConnectionStatus, connected, token_expiring, disconnected, error,
}
use bright_bean_paysys.Members.Roles.{WorkspaceMembership, view_analytics, effective_permissions}
use bright_bean_paysys.Members.Services.{OrgMembership}
use bright_bean_paysys.ApiKeys.Token.{Codes, same}
use bright_bean_paysys.ApiKeys.Scope.{account_ids}
use bright_bean_paysys.Slack.Directory.{
  ErrorCode, unauthorized, channel_not_mapped, user_not_mapped, workspace_unavailable,
  SlackAnalyticsRequest, ToolContext, BrightbeanUser, SlackChannelMapping, SlackUserMapping, Tables,
  is_channel_of, is_user_of,
}

-- `_USABLE_CONNECTION_STATUSES`
abbrev pub is_usable : ConnectionStatus → Bool
is_usable connected = true
is_usable token_expiring = true
is_usable disconnected = false
is_usable error = false

-- `SLACK_ALLOWED_TEAM_ID`, stripped already; the empty text allows every team.
abbrev pub is_allowed_team : Codes → Codes → Bool
is_allowed_team allowed team = is_empty allowed || same team allowed

-- `get` of a row, and the error raised when it does not exist
abbrev pub or_raise {ℓ} : {A : Type ℓ} → ErrorCode → Option A → Result ErrorCode A
or_raise e none = err e
or_raise e (some a) = ok a

abbrev pub is_org_member : ℕ → Workspace → OrgMembership → Bool
is_org_member user ws m = m.user == user && m.organization == ws.organization_id

abbrev pub is_member_of : ℕ → Workspace → WorkspaceMembership → Bool
is_member_of user ws m = m.user == user && m.workspace_id == ws.id

abbrev pub can_view_analytics : WorkspaceMembership → Bool
can_view_analytics m = effective_permissions m view_analytics

-- The connected accounts of the workspace.
abbrev pub usable_accounts : Workspace → List SocialAccount → List SocialAccount
usable_accounts ws = filter (λ a. a.workspace_id == ws.id && is_usable a.connection_status)

abbrev pub context_of : SlackAnalyticsRequest → Workspace → BrightbeanUser → Tables → ToolContext
context_of r ws user s = record {
  workspace_id = ws.id;
  user_id = user.id;
  organization_id = ws.organization_id;
  allowed_account_ids = account_ids (usable_accounts ws s.social_accounts);
  slack_team_id = r.team_id;
  slack_channel_id = r.channel_id;
}

-- Steps 6 to 9, for the user behind the mapping
unfoldable pub context_for_user :
    SlackAnalyticsRequest → Workspace → BrightbeanUser → Tables → Result ErrorCode ToolContext
context_for_user r ws user s = do
  raise_if (not user.is_active) unauthorized
  raise_if (not (any (is_org_member user.id ws) s.org_memberships)) unauthorized
  membership ← or_raise unauthorized (find (is_member_of user.id ws) s.memberships)
  raise_if (not (can_view_analytics membership)) unauthorized
  ok (context_of r ws user s)

-- Steps 3 to 5, in the workspace of the channel
unfoldable pub context_in_workspace :
    SlackAnalyticsRequest → Workspace → Tables → Result ErrorCode ToolContext
unfolding context_for_user
context_in_workspace r ws s = do
  raise_if ws.is_archived workspace_unavailable
  mapping ← or_raise user_not_mapped (find (is_user_of r.team_id r.user_id) s.user_mappings)
  context_for_user r ws mapping.user s

unfoldable pub resolve_tool_context :
    Codes → SlackAnalyticsRequest → Tables → Result ErrorCode ToolContext
unfolding context_in_workspace
resolve_tool_context allowed r s = do
  raise_if (not (is_allowed_team allowed r.team_id)) unauthorized
  mapping ←
      or_raise channel_not_mapped (find (is_channel_of r.team_id r.channel_id) s.channel_mappings)
  context_in_workspace r mapping.workspace s
