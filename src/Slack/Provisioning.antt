-- ===== src/Slack/Provisioning.antt =====
-- brightbean-studio/apps/slack_bot/access_provisioning.py: an administrator gives a Slack user the
-- whole chain of rows that analytics needs. The tables after a rollback are those before.
pub mod Laws
pub mod Scope
use bright_bean_paysys.Common.{
  ℕ, Bool, true, false, not, ◌&&◌, ◌||◌, Option, none, some, List, [], ◌∷◌, ◌++◌, ◌==◌, any, filter,
  find, is_empty, is_some, if◌then◌else◌, Result, ok, err, ◌>>=◌, ◌>>◌, raise_if,
}
use bright_bean_paysys.Store.{Workspace}
use bright_bean_paysys.Members.Roles.{WorkspaceMembership, WorkspaceRole}
use bright_bean_paysys.Members.Services.{OrgMembership, OrgRole}
use bright_bean_paysys.ApiKeys.Token.{Codes, same}
use bright_bean_paysys.Slack.Directory.{
  ErrorCode, SlackAnalyticsRequest, ToolContext, BrightbeanUser, SlackChannelMapping,
  SlackUserMapping, AdminStatus, active, inactive, BotAdministrator, Tables, is_channel_of,
  is_user_of, is_access_of,
}
use bright_bean_paysys.Slack.Access.{GrantAction, grant_action, act}
use bright_bean_paysys.Slack.Authorization.{
  is_org_member, is_member_of, can_view_analytics, resolve_tool_context,
}

-- `ProvisioningFailureReason`
pub data ProvisioningFailureReason : Type 0 where
  not_admin channel_unmapped workspace_archived : ProvisioningFailureReason
  email_required user_not_found user_inactive multiple_users : ProvisioningFailureReason
  mapping_conflict email_mismatch : ProvisioningFailureReason
  no_view_analytics post_check_failed : ProvisioningFailureReason

-- `ProvisioningStatus`, its `FAILED` with the reason
pub data ProvisioningStatus : Type 0 where
  newly_provisioned already_provisioned repaired restored : ProvisioningStatus
  failed : ProvisioningFailureReason → ProvisioningStatus

-- What was done to a row.
pub data RowAction : Type 0 where
  created already_exists : RowAction

-- The address in the command: none or empty, only spaces, or the address it stands for.
pub data SuppliedEmail : Type 0 where
  absent blank : SuppliedEmail
  address : ℕ → SuppliedEmail

pub record Grant : Type 0 where
  pub approving_slack_user_id : Codes
  pub team_id : Codes
  pub source_channel_id : Codes
  pub target_slack_user_id : Codes
  pub brightbean_email : SuppliedEmail

abbrev pub Refusable : Type 0 → Type 0
Refusable A = Result ProvisioningFailureReason A

abbrev pub is_active_admin : Codes → Codes → BotAdministrator → Bool
is_active_admin team user a =
    same a.workspace_id team
    && same a.slack_user_id user
    && elim a.status [ active ↦ true | inactive ↦ false ]

-- Step 2
abbrev pub open_workspace : Option SlackChannelMapping → Refusable Workspace
open_workspace none = err channel_unmapped
open_workspace (some m) = raise_if m.workspace.is_archived workspace_archived >> ok m.workspace

-- Step 3, with a mapping
unfoldable pub mapped_user : SuppliedEmail → SlackUserMapping → Refusable BrightbeanUser
mapped_user absent m = ok m.user
mapped_user blank m = err email_mismatch
mapped_user (address e) m = raise_if (not (m.user.email == e)) email_mismatch >> ok m.user

-- Step 3, the users with the address: exactly one of them is to be active.
abbrev pub the_one : List BrightbeanUser → List BrightbeanUser → Refusable BrightbeanUser
the_one [] [] = err user_not_found
the_one [] (_ ∷ _) = err user_inactive
the_one (u ∷ []) _ = ok u
the_one (_ ∷ _ ∷ _) _ = err multiple_users

unfoldable pub user_by_email : SuppliedEmail → List BrightbeanUser → Refusable BrightbeanUser
user_by_email absent users = err email_required
user_by_email blank users = err email_required
user_by_email (address e) users =
    the_one (filter (λ u. u.email == e && u.is_active) users) (filter (λ u. u.email == e) users)

unfoldable pub resolve_user :
    SuppliedEmail → Option SlackUserMapping → List BrightbeanUser → Refusable BrightbeanUser
unfolding mapped_user user_by_email
resolve_user e (some m) users = mapped_user e m
resolve_user e none users = user_by_email e users

-- Steps 5 to 7: a row is created only where there is none. `key` is the key of a new row.
abbrev pub new_org_row : ℕ → BrightbeanUser → Workspace → OrgMembership
new_org_row key user ws = record {
  id = key;
  user = user.id;
  email = user.email;
  organization = ws.organization_id;
  org_role = OrgRole.member;
}

abbrev pub new_member_row : BrightbeanUser → Workspace → WorkspaceMembership
new_member_row user ws = record {
  user = user.id;
  workspace_id = ws.id;
  workspace_role = WorkspaceRole.viewer;
  custom_role = none;
}

abbrev pub appended_unless {ℓ} : {A : Type ℓ} → Bool → A → List A → List A
appended_unless true row rows = rows
appended_unless false row rows = rows ++ (row ∷ [])

-- The rows of the chain that are there already.
pub record Present : Type 0 where
  pub org : Bool
  pub member : Bool
  pub mapping : Bool

unfoldable pub present : Grant → Workspace → BrightbeanUser → Tables → Present
present g ws user s = record {
  org = any (is_org_member user.id ws) s.org_memberships;
  member = any (is_member_of user.id ws) s.memberships;
  mapping = any (is_user_of g.team_id g.target_slack_user_id) s.user_mappings;
}

unfoldable pub with_chain : ℕ → Grant → Workspace → BrightbeanUser → Present → Tables → Tables
with_chain key g ws user p s = record s {
  org_memberships = appended_unless p.org (new_org_row key user ws) s.org_memberships;
  memberships = appended_unless p.member (new_member_row user ws) s.memberships;
  user_mappings =
      appended_unless p.mapping
        (record { slack_user_id = g.target_slack_user_id; team_id = g.team_id; user = user })
        s.user_mappings;
}

-- Step 8, on the membership row that is fetched again
abbrev pub may_view : Option WorkspaceMembership → Bool
may_view none = false
may_view (some m) = can_view_analytics m

pub record ProvisioningResult : Type 0 where
  pub status : ProvisioningStatus
  pub target_slack_user_id : Codes
  pub brightbean_email : Option ℕ
  pub bot_access_action : Option GrantAction
  pub mapping_action : Option RowAction
  pub org_membership_action : Option RowAction
  pub ws_membership_action : Option RowAction

-- A call returns, or raises because the request for the post-check has an empty id.
pub data Provisioned : Type 0 where
  returned : ProvisioningResult → Provisioned
  raised : Provisioned

abbrev pub refusal : Grant → ProvisioningFailureReason → Provisioned
refusal g why = returned (record {
  status = failed why;
  target_slack_user_id = g.target_slack_user_id;
  brightbean_email = none;
  bot_access_action = none;
  mapping_action = none;
  org_membership_action = none;
  ws_membership_action = none;
})

abbrev pub row_action : Bool → RowAction
row_action true = already_exists
row_action false = created

-- Step 11; the chain is complete when no row of it was created.
abbrev pub final_status : Bool → GrantAction → ProvisioningStatus
final_status true GrantAction.already_approved = already_provisioned
final_status false GrantAction.already_approved = repaired
final_status _ GrantAction.granted = newly_provisioned
final_status _ GrantAction.restored = ProvisioningStatus.restored

abbrev pub success : Grant → BrightbeanUser → Present → GrantAction → Provisioned
success g user p action = returned (record {
  status = final_status (p.org && p.member && p.mapping) action;
  target_slack_user_id = g.target_slack_user_id;
  brightbean_email = some user.email;
  bot_access_action = some action;
  mapping_action = some (row_action p.mapping);
  org_membership_action = some (row_action p.org);
  ws_membership_action = some (row_action p.member);
})

-- Step 10: "provision-" and the id, and the diagnostic text
abbrev pub diagnostic_id : Grant → Codes
diagnostic_id g =
    b'p' ∷ b'r' ∷ b'o' ∷ b'v' ∷ b'i' ∷ b's' ∷ b'i' ∷ b'o' ∷ b'n' ∷ b'-' ∷ g.target_slack_user_id

abbrev pub diagnostic_text : Codes
diagnostic_text =
    b's' ∷ b'h' ∷ b'o' ∷ b'w' ∷ 32 ∷ b'm' ∷ b'e' ∷ 32 ∷ b'w' ∷ b'o' ∷ b'r' ∷ b'k' ∷ b's' ∷ b'p'
    ∷ b'a' ∷ b'c' ∷ b'e' ∷ 32 ∷ b'a' ∷ b'n' ∷ b'a' ∷ b'l' ∷ b'y' ∷ b't' ∷ b'i' ∷ b'c' ∷ b's' ∷ 32
    ∷ b'o' ∷ b'v' ∷ b'e' ∷ b'r' ∷ b'v' ∷ b'i' ∷ b'e' ∷ b'w' ∷ []

abbrev pub diagnostic : Grant → SlackAnalyticsRequest
diagnostic g = record {
  correlation_id = diagnostic_id g;
  event_id = diagnostic_id g;
  team_id = g.team_id;
  channel_id = g.source_channel_id;
  user_id = g.target_slack_user_id;
  thread_ts = [];
  text = diagnostic_text;
}

abbrev pub has_empty_id : Grant → Bool
has_empty_id g =
    is_empty g.team_id || is_empty g.source_channel_id || is_empty g.target_slack_user_id

abbrev pub is_expected : Workspace → BrightbeanUser → Result ErrorCode ToolContext → Bool
is_expected ws user (err _) = false
is_expected ws user (ok c) =
    c.workspace_id == ws.id && c.user_id == user.id && c.organization_id == ws.organization_id

-- Steps 9 to 11, where `granted` is what the code calls "created", on the tables `chained` with the chain of rows; `s` is what a rollback leaves.
unfoldable pub grant_access :
    Codes → Grant → Workspace → BrightbeanUser → Present → Tables → Tables → Provisioned × Tables
unfolding grant_action act
grant_access allowed g ws user p chained s =
    let action =
      grant_action (find (is_access_of g.team_id g.target_slack_user_id) chained.accesses) in
    let t = act action g.team_id g.target_slack_user_id g.approving_slack_user_id chained in
    if has_empty_id g
    then (raised, s)
    else if is_expected ws user (resolve_tool_context allowed (diagnostic g) t)
    then (success g user p action, t)
    else (refusal g post_check_failed, s)

-- Steps 5 to 11. The return of step 8 is no rollback: it keeps the rows of steps 5 to 7.
unfoldable pub provision :
    Codes → ℕ → Grant → Workspace → BrightbeanUser → Tables → Provisioned × Tables
unfolding grant_access with_chain present
provision allowed key g ws user s =
    let p = present g ws user s in
    let chained = with_chain key g ws user p s in
    if may_view (find (is_member_of user.id ws) chained.memberships)
    then grant_access allowed g ws user p chained s
    else (refusal g no_view_analytics, chained)

-- Steps 1 to 3
unfoldable pub who_and_where : Grant → Tables → Refusable (Workspace × BrightbeanUser)
unfolding resolve_user
who_and_where g s = do
  raise_if (not (any (is_active_admin g.team_id g.approving_slack_user_id) s.administrators))
      not_admin
  ws ← open_workspace (find (is_channel_of g.team_id g.source_channel_id) s.channel_mappings)
  user ←
      resolve_user g.brightbean_email
        (find (is_user_of g.team_id g.target_slack_user_id) s.user_mappings) s.users
  ok (ws, user)

abbrev pub carried_out :
    Codes → ℕ → Grant → Tables → Refusable (Workspace × BrightbeanUser) → Provisioned × Tables
carried_out allowed key g s (err why) = (refusal g why, s)
carried_out allowed key g s (ok (ws, user)) = provision allowed key g ws user s

unfoldable pub grant_slack_analytics_access : Codes → ℕ → Grant → Tables → Provisioned × Tables
unfolding provision who_and_where
grant_slack_analytics_access allowed key g s = carried_out allowed key g s (who_and_where g s)
