-- ===== src/Slack/Directory.antt =====
-- brightbean-studio/apps/slack_bot/models.py, contracts.py and errors.py: the rows and messages that
-- the parts of the bot share. A Slack id is a text, the list of its code points; the email of a user
-- is a number that stands for its lowered form, since addresses are compared only.
use bright_bean_paysys.Common.{ℕ, Bool, ◌&&◌, List, [], ◌∷◌, Option}
use bright_bean_paysys.Store.{Workspace, SocialAccount}
use bright_bean_paysys.Members.Roles.{WorkspaceMembership}
use bright_bean_paysys.Members.Services.{OrgMembership}
use bright_bean_paysys.ApiKeys.Token.{Codes, same}

-- `ErrorCode`
pub data ErrorCode : Type 0 where
  unauthorized channel_not_mapped user_not_mapped workspace_unavailable : ErrorCode
  account_not_allowed : ErrorCode
  unsupported_platform invalid_metric invalid_period invalid_limit : ErrorCode
  no_connected_account multiple_accounts no_data stale_data : ErrorCode
  tool_not_found tool_argument_validation_failed tool_execution_failed : ErrorCode
  tool_loop_limit_reached : ErrorCode
  llm_temporarily_unavailable provider_response_invalid response_reference_invalid : ErrorCode

pub record SlackAnalyticsRequest : Type 0 where
  pub correlation_id : Codes
  pub event_id : Codes
  pub team_id : Codes
  pub channel_id : Codes
  pub user_id : Codes
  pub thread_ts : Codes
  pub text : Codes

pub record ToolContext : Type 0 where
  pub workspace_id : ℕ
  pub user_id : ℕ
  pub organization_id : ℕ
  pub allowed_account_ids : List ℕ
  pub slack_team_id : Codes
  pub slack_channel_id : Codes

-- A row of `accounts.User`, the user of BrightBean behind a Slack id.
pub record BrightbeanUser : Type 0 where
  pub id : ℕ
  pub email : ℕ
  pub is_active : Bool

pub record SlackChannelMapping : Type 0 where
  pub team_id : Codes
  pub channel_id : Codes
  pub workspace : Workspace

pub record SlackUserMapping : Type 0 where
  pub slack_user_id : Codes
  pub team_id : Codes
  pub user : BrightbeanUser

-- `ADMIN_STATUS_CHOICES`
pub data AdminStatus : Type 0 where
  active inactive : AdminStatus

pub record BotAdministrator : Type 0 where
  pub workspace_id : Codes
  pub slack_user_id : Codes
  pub status : AdminStatus

-- `ACCESS_STATUS_CHOICES`, and `PERMISSION_CHOICES`, which has one entry
pub data AccessStatus : Type 0 where
  approved revoked : AccessStatus

pub data BotPermission : Type 0 where
  read_only : BotPermission

pub record BotUserAccess : Type 0 where
  pub workspace_id : Codes
  pub slack_user_id : Codes
  pub status : AccessStatus
  pub permission : BotPermission
  pub granted_by_slack_user_id : Codes
  pub revoked_at : Option ℕ

-- `AUDIT_ACTION_CHOICES`, those that this library's operations write
pub data AuditAction : Type 0 where
  admin_bootstrapped admin_updated access_granted bulk_access_granted : AuditAction
  access_already_present access_restored invalid_member_id : AuditAction

-- `metadata`: the keys that the operations put there
pub data AuditMetadata : Type 0 where
  no_metadata : AuditMetadata
  previous_admin : Codes → AuditMetadata
  bulk : List Codes → List Codes → List Codes → List Codes → AuditMetadata

pub record BotAccessAuditLog : Type 0 where
  pub workspace_id : Codes
  pub target_slack_user_id : Codes
  pub performed_by_slack_user_id : Codes
  pub action : AuditAction
  pub metadata : AuditMetadata

pub record Tables : Type 0 where
  pub users : List BrightbeanUser
  pub org_memberships : List OrgMembership
  pub memberships : List WorkspaceMembership
  pub social_accounts : List SocialAccount
  pub channel_mappings : List SlackChannelMapping
  pub user_mappings : List SlackUserMapping
  pub administrators : List BotAdministrator
  pub accesses : List BotUserAccess
  pub audit_logs : List BotAccessAuditLog

-- `SYSTEM_ACTOR` is "SYSTEM".
abbrev pub system_actor : Codes
system_actor = b'S' ∷ b'Y' ∷ b'S' ∷ b'T' ∷ b'E' ∷ b'M' ∷ []

-- The lookups by the unique pairs of the tables.
abbrev pub is_channel_of : Codes → Codes → SlackChannelMapping → Bool
is_channel_of team channel m = same m.team_id team && same m.channel_id channel

abbrev pub is_user_of : Codes → Codes → SlackUserMapping → Bool
is_user_of team user m = same m.slack_user_id user && same m.team_id team

abbrev pub is_access_of : Codes → Codes → BotUserAccess → Bool
is_access_of workspace user a = same a.workspace_id workspace && same a.slack_user_id user
