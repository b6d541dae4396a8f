-- ===== src/Store.antt =====
-- The rows that the components share, as the tables of the database. Keys are numbers and instants
-- are seconds. Models: brightbean-studio/apps/composer/models.py, apps/calendar/models.py,
-- apps/social_accounts/models.py, apps/publisher/models.py, apps/approvals/models.py and
-- apps/workspaces/models.py. JSON columns and columns that only the screens read are left out.
use bright_bean_paysys.Common.{ℕ, String, Bool, true, false, Option, List, ◌==◌, filter, find}
use bright_bean_paysys.Common.Rows.{update_where}
use bright_bean_paysys.Composer.Status.{Status}

-- `Workspace.ApprovalWorkflowMode`; `unrestricted` is its "none".
pub data ApprovalWorkflowMode : Type 0 where
  unrestricted optional required_internal required_internal_and_client : ApprovalWorkflowMode

pub record Workspace : Type 0 where
  pub id : ℕ
  pub organization_id : ℕ
  pub approval_workflow_mode : ApprovalWorkflowMode
  pub is_archived : Bool

pub data ConnectionStatus : Type 0 where
  connected token_expiring disconnected error : ConnectionStatus

pub record SocialAccount : Type 0 where
  pub id : ℕ
  pub workspace_id : ℕ
  pub platform : String
  pub connection_status : ConnectionStatus
  pub daily_post_limit_override : Option ℕ

-- `SocialAccount.needs_reconnect`
abbrev pub needs_reconnect : ConnectionStatus → Bool
needs_reconnect disconnected = true
needs_reconnect error = true
needs_reconnect _ = false

pub record Post : Type 0 where
  pub id : ℕ
  pub workspace_id : ℕ
  pub author : Option ℕ
  pub title : String
  pub caption : String
  pub first_comment : String
  pub internal_notes : String
  pub scheduled_at : Option ℕ
  pub published_at : Option ℕ
  pub proposed_publish_at : Option ℕ
  pub updated_at : ℕ

pub record PlatformPost : Type 0 where
  pub id : ℕ
  pub post_id : ℕ
  pub social_account_id : ℕ
  pub platform_specific_title : Option String
  pub platform_specific_caption : Option String
  pub platform_specific_first_comment : Option String
  pub status : Status
  pub platform_post_id : String
  pub publish_error : String
  pub published_at : Option ℕ
  pub scheduled_at : Option ℕ
  pub retry_count : ℕ
  pub next_retry_at : Option ℕ
  pub updated_at : ℕ

pub record PostMedia : Type 0 where
  pub post_id : ℕ
  pub media_asset_id : ℕ
  pub position : ℕ
  pub alt_text : String

pub record MediaAsset : Type 0 where
  pub id : ℕ
  pub workspace_id : ℕ

pub record Queue : Type 0 where
  pub id : ℕ
  pub social_account_id : ℕ

pub record QueueEntry : Type 0 where
  pub id : ℕ
  pub queue : Queue
  pub post_id : ℕ
  pub position : ℕ
  pub assigned_slot_datetime : Option ℕ

pub record PublishLog : Type 0 where
  pub platform_post_id : ℕ
  pub attempt_number : ℕ
  pub status_code : Option ℕ
  pub error_message : String

-- `requests_remaining`: `none` is the source's -1, "unknown".
pub record RateLimitState : Type 0 where
  pub social_account_id : ℕ
  pub requests_remaining : Option ℕ
  pub window_resets_at : Option ℕ

pub record Store : Type 0 where
  pub posts : List Post
  pub platform_posts : List PlatformPost
  pub post_media : List PostMedia
  pub media_assets : List MediaAsset
  pub queue_entries : List QueueEntry
  pub publish_logs : List PublishLog
  pub rate_limits : List RateLimitState

-- `Post.objects.get(id=...)`, and `post.platform_posts.all()`
abbrev pub get_post : ℕ → Store → Option Post
get_post k s = find (λ p. p.id == k) s.posts

abbrev pub get_platform_post : ℕ → Store → Option PlatformPost
get_platform_post k s = find (λ p. p.id == k) s.platform_posts

abbrev pub children : ℕ → List PlatformPost → List PlatformPost
children k = filter (λ p. p.post_id == k)

-- Saving the row with key `k`.
abbrev pub save_post : ℕ → (Post → Post) → Store → Store
save_post k f s = record s { posts = update_where (λ p. p.id == k) f s.posts }

abbrev pub save_platform_post : ℕ → (PlatformPost → PlatformPost) → Store → Store
save_platform_post k f s = record s {
  platform_posts = update_where (λ p. p.id == k) f s.platform_posts;
}

abbrev pub delete_entries : (QueueEntry → Bool) → Store → Store
delete_entries keep s = record s { queue_entries = filter keep s.queue_entries }
