-- ===== src/Approvals/Notices.antt =====
-- What a decision leaves behind besides the rows: the audit trail, the reminder counters and the
-- notifications (brightbean-studio/apps/approvals/models.py, services.py). The texts of the
-- notifications are left out.
use bright_bean_paysys.Common.{
  ℕ, String, Bool, true, false, not, ◌&&◌, Option, none, some, List, [], ◌∷◌, ◌++◌, map, ◌==◌,
  if◌then◌else◌, filter, any,
}
use bright_bean_paysys.Store.{Post, PlatformPost, Store}
use bright_bean_paysys.Composer.Status.{Status, is}
use bright_bean_paysys.Members.Roles.{
  WorkspaceRole, client, approve_posts, WorkspaceMembership, effective_permissions,
}
use bright_bean_paysys.Notifications.Events.{EventType}
use bright_bean_paysys.Approvals.Rows.{Target, whole, single}

-- `ApprovalAction.ActionType`
pub data ActionType : Type 0 where
  submitted approved changes_requested rejected resubmitted held : ActionType

pub record ApprovalAction : Type 0 where
  pub post_id : ℕ
  pub platform_post : Option ℕ
  pub user : ℕ
  pub action : ActionType
  pub comment : String

pub record ApprovalReminder : Type 0 where
  pub post_id : ℕ
  pub stage : Status
  pub reminder_count : ℕ
  pub last_reminder_at : Option ℕ
  pub escalated : Bool

-- A call of `notify`.
pub record Notice : Type 0 where
  pub user : ℕ
  pub event_type : EventType
  pub post_id : ℕ

pub record Desk : Type 0 where
  pub store : Store
  pub actions : List ApprovalAction
  pub reminders : List ApprovalReminder
  pub outbox : List Notice

-- The rows that `_record_action` creates: one for a bundled decision, else one for each row.
unfoldable pub record_actions :
    Target → List PlatformPost → ℕ → ActionType → String → List ApprovalAction
record_actions (whole post) rows user action comment =
    record {
      post_id = post.id;
      platform_post = none;
      user = user;
      action = action;
      comment = comment;
    }
    ∷ []
record_actions (single post _) rows user action comment =
    map
      (λ q. record {
        post_id = post.id;
        platform_post = some q.id;
        user = user;
        action = action;
        comment = comment;
      })
      rows

-- `ApprovalReminder.objects.update_or_create(post, stage, defaults=...)`
abbrev pub is_reminder : ℕ → Status → ApprovalReminder → Bool
is_reminder post_id stage r = r.post_id == post_id && is r.stage stage

abbrev pub fresh_reminder : ℕ → Status → ApprovalReminder
fresh_reminder post_id stage = record {
  post_id = post_id;
  stage = stage;
  reminder_count = 0;
  last_reminder_at = none;
  escalated = false;
}

unfoldable pub reset_reminder : ℕ → Status → List ApprovalReminder → List ApprovalReminder
reset_reminder post_id stage rs =
    if any (is_reminder post_id stage) rs
    then map (λ r. if is_reminder post_id stage r then fresh_reminder post_id stage else r) rs
    else rs ++ fresh_reminder post_id stage ∷ []

-- `_notify_reviewers`: `members` are the memberships of the workspace.
unfoldable pub notify_reviewers : List WorkspaceMembership → ℕ → ℕ → EventType → List Notice
unfolding effective_permissions
notify_reviewers members actor post_id event =
    map (λ m. record { user = m.user; event_type = event; post_id = post_id })
      (filter (λ m. effective_permissions m approve_posts && not (m.user == actor)) members)

abbrev pub is_client : WorkspaceRole → Bool
is_client client = true
is_client _ = false

-- `_notify_clients`
unfoldable pub notify_clients : List WorkspaceMembership → ℕ → EventType → List Notice
notify_clients members post_id event =
    map (λ m. record { user = m.user; event_type = event; post_id = post_id })
      (filter (λ m. is_client m.workspace_role) members)

-- `if post.author and post.author != user: notify(...)`
unfoldable pub notify_author : Post → Option ℕ → ℕ → EventType → List Notice
notify_author post none user event = []
notify_author post (some author) user event =
    if author == user
    then []
    else record { user = author; event_type = event; post_id = post.id } ∷ []
