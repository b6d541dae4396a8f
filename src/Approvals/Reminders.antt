-- ===== src/Approvals/Reminders.antt =====
-- brightbean-studio/apps/approvals/tasks.py: the hourly check for posts that wait too long. The
-- texts of the notifications are left out.
pub mod Phases
pub mod Sending
pub mod Checks
pub mod Escalation
mod Examples
use bright_bean_paysys.Common.{
  ℕ, suc, ◌+◌, ◌*◌, Bool, true, false, ◌&&◌, ◌||◌, Option, none, some, List, [], ◌∷◌, ◌++◌, map,
  ◌==◌, ltb, leb, if◌then◌else◌, filter, find, any,
}
use bright_bean_paysys.Common.Rows.{update_where}
use bright_bean_paysys.Store.{Post, PlatformPost, Store, children}
use bright_bean_paysys.Composer.Status.{Status, pending_review, pending_client, is}
use bright_bean_paysys.Members.Roles.{
  WorkspaceRole, WorkspaceMembership, approve_posts, effective_permissions,
}
use bright_bean_paysys.Notifications.Events.{approval_reminder, approval_stalled}
use bright_bean_paysys.Approvals.Notices.{
  ApprovalReminder, Notice, Desk, is_reminder, fresh_reminder, notify_clients,
}

abbrev pub pending_review_hours : ℕ
pending_review_hours = 24

abbrev pub pending_client_hours : ℕ
pending_client_hours = 48

abbrev pub max_reminders : ℕ
max_reminders = 2

abbrev pub hours : ℕ → ℕ
hours n = n * 3600

-- The posts of the query: `stage` is both the stage and the status of the call.
unfoldable pub is_stalled : ℕ → Status → ℕ → Store → Post → Bool
is_stalled now stage threshold s post =
    any (λ q. is q.status stage) (children post.id s.platform_posts)
    && leb (post.updated_at + hours threshold) now

-- What a round of the loop does about one post.
pub data Reaction : Type 0 where
  silent reminds escalates : Reaction

abbrev pub is_cooling : ℕ → ℕ → Option ℕ → Bool
is_cooling now threshold none = false
is_cooling now threshold (some last) = ltb now (last + hours threshold)

unfoldable pub reaction : ℕ → ℕ → ApprovalReminder → Reaction
reaction now threshold r =
    if leb max_reminders r.reminder_count
    then (if r.escalated then silent else escalates)
    else if is_cooling now threshold r.last_reminder_at
    then silent
    else reminds

-- The reminder as it is saved after the round.
abbrev pub reacted : ℕ → Reaction → ApprovalReminder → ApprovalReminder
reacted now silent r = r
reacted now reminds r = record r {
  reminder_count = r.reminder_count + 1;
  last_reminder_at = some now;
}
reacted now escalates r = record r { escalated = true }

abbrev pub next_reminder : ℕ → ℕ → ApprovalReminder → ApprovalReminder
next_reminder now threshold r = reacted now (reaction now threshold r) r

-- `_remind_reviewers`; the memberships are those of the workspace, here and below.
unfoldable pub remind_reviewers : List WorkspaceMembership → ℕ → List Notice
unfolding effective_permissions
remind_reviewers members post_id =
    map (λ m. record { user = m.user; event_type = approval_reminder; post_id = post_id })
      (filter (λ m. effective_permissions m approve_posts) members)

-- `_remind_clients`
unfoldable pub remind_clients : List WorkspaceMembership → ℕ → List Notice
unfolding notify_clients
remind_clients members post_id = notify_clients members post_id approval_reminder

abbrev pub is_manager : WorkspaceRole → Bool
is_manager WorkspaceRole.owner = true
is_manager WorkspaceRole.manager = true
is_manager _ = false

-- `_escalate`
unfoldable pub escalate : List WorkspaceMembership → ℕ → List Notice
escalate members post_id =
    map (λ m. record { user = m.user; event_type = approval_stalled; post_id = post_id })
      (filter (λ m. is_manager m.workspace_role) members)

abbrev pub remind : Status → List WorkspaceMembership → ℕ → List Notice
remind pending_review members post_id = remind_reviewers members post_id
remind pending_client members post_id = remind_clients members post_id
remind _ members post_id = []

abbrev pub notices_of : Reaction → Status → List WorkspaceMembership → ℕ → List Notice
notices_of silent stage members post_id = []
notices_of reminds stage members post_id = remind stage members post_id
notices_of escalates stage members post_id = escalate members post_id

-- `ApprovalReminder.objects.get_or_create(post, stage)`: the row, and the table that has it.
abbrev pub row_or_fresh : ℕ → Status → Option ApprovalReminder → ApprovalReminder
row_or_fresh post_id stage none = fresh_reminder post_id stage
row_or_fresh post_id stage (some r) = r

unfoldable pub reminder_of : ℕ → Status → List ApprovalReminder → ApprovalReminder
reminder_of post_id stage rs = row_or_fresh post_id stage (find (is_reminder post_id stage) rs)

unfoldable pub get_or_create : ℕ → Status → List ApprovalReminder → List ApprovalReminder
get_or_create post_id stage rs =
    if any (is_reminder post_id stage) rs then rs else rs ++ fresh_reminder post_id stage ∷ []

-- One round of the loop. A post and a stage have one row at most.
unfoldable pub process_post : ℕ → Status → ℕ → List WorkspaceMembership → Post → Desk → Desk
unfolding reaction reminder_of get_or_create remind_reviewers remind_clients escalate
process_post now stage threshold table post d =
    let r = reminder_of post.id stage d.reminders in
    let what = reaction now threshold r in
    let members = filter (λ m. m.workspace_id == post.workspace_id) table in
    record d {
      reminders =
          update_where (is_reminder post.id stage) (λ _. reacted now what r)
            (get_or_create post.id stage d.reminders);
      outbox = d.outbox ++ notices_of what stage members post.id;
    }

unfoldable pub process_posts : ℕ → Status → ℕ → List WorkspaceMembership → List Post → Desk → Desk
unfolding process_post
process_posts now stage threshold table [] d = d
process_posts now stage threshold table (post ∷ posts) d =
    process_posts now stage threshold table posts (process_post now stage threshold table post d)

abbrev pub stalled_posts : ℕ → Status → ℕ → Store → List Post
stalled_posts now stage threshold s = filter (is_stalled now stage threshold s) s.posts

-- `_process_stage`
unfoldable pub process_stage : ℕ → Status → ℕ → List WorkspaceMembership → Desk → Desk
unfolding is_stalled process_posts
process_stage now stage threshold table d =
    process_posts now stage threshold table (stalled_posts now stage threshold d.store) d

-- `check_approval_reminders`
unfoldable pub check_approval_reminders : ℕ → List WorkspaceMembership → Desk → Desk
unfolding process_stage
check_approval_reminders now table d =
    process_stage now pending_client pending_client_hours table
      (process_stage now pending_review pending_review_hours table d)
