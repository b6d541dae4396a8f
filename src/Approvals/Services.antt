-- ===== src/Approvals/Services.antt =====
-- brightbean-studio/apps/approvals/services.py: the decisions. A decision returns whether anything
-- moved (the source returns the post, or the empty list) and the desk that it leaves; `members` are
-- the memberships of the workspace.
use Prim.Native.Char.{code}
use bright_bean_paysys.Common.{
  ℕ, String, Bool, true, false, ◌&&◌, ◌||◌, List, [], ◌∷◌, ◌++◌, ◌==◌, leb, if◌then◌else◌, filter,
  any, is_empty, Result, ok, raise_if, ◌>>◌,
}
use bright_bean_paysys.Common.Rows.{update_where}
use bright_bean_paysys.Store.{ApprovalWorkflowMode, required_internal_and_client, Post, Store}
use bright_bean_paysys.Composer.Status.{
  Status, draft, pending_review, pending_client, approved, changes_requested, rejected, on_hold, is,
}
use bright_bean_paysys.Members.Roles.{WorkspaceMembership}
use bright_bean_paysys.Approvals.Rows.{
  Target, whole, target_post, is_target, move_all, moved_rows, advances, approve_row,
}
use bright_bean_paysys.Notifications.Events.{
  post_submitted, post_approved, post_changes_requested, post_rejected, approval_hold_requested,
  client_approval_requested,
}
use bright_bean_paysys.Approvals.Notices.{
  ActionType, Desk, Notice, record_actions, reset_reminder, notify_reviewers, notify_clients,
  notify_author,
}

pub data ApprovalError : Type 0 where
  comment_required : ApprovalError

-- Whitespace of `str.strip`.
abbrev pub is_space : ℕ → Bool
is_space c =
    (leb 9 c && leb c 13)
    || (leb 28 c && leb c 32)
    || c == 133
    || c == 160
    || c == 5760
    || (leb 8192 c && leb c 8202)
    || c == 8232
    || c == 8233
    || c == 8239
    || c == 8287
    || c == 12288

-- `not text.strip()`
unfoldable pub is_blank : String → Bool
is_blank String.[] = true
is_blank (String.◌∷◌ c s) = is_space (code c) && is_blank s

-- The transaction that the decisions with one goal share: the rows move, and if one did, the action
-- is recorded. The answer says whether one did.
unfoldable pub decide :
    ℕ → Target → List Status → Status → ℕ → ActionType → String → Desk → Bool × Desk
unfolding move_all moved_rows record_actions
decide now target eligible goal user action comment d =
    let rows = d.store.platform_posts in
    let done = moved_rows target eligible goal rows in
    if is_empty done then (false, d) else (
      true,
      record d {
        store = record (d.store) { platform_posts = move_all now target eligible goal rows };
        actions = d.actions ++ record_actions target done user action comment;
      },
    )

abbrev pub send : List Notice → Desk → Desk
send notices d = record d { outbox = d.outbox ++ notices }

-- What follows a decision that moved something.
abbrev pub and_then : Bool × Desk → (Desk → Desk) → Bool × Desk
and_then (false, d) f = (false, d)
and_then (true, d) f = (true, f d)

abbrev pub with_reminder : ℕ → Status → Desk → Desk
with_reminder post_id stage d = record d { reminders = reset_reminder post_id stage d.reminders }

unfoldable pub submit_for_review : ℕ → Target → ℕ → List WorkspaceMembership → Desk → Bool × Desk
unfolding decide reset_reminder notify_reviewers
submit_for_review now target user members d =
    let post = target_post target in
    and_then
      (decide now target (draft ∷ changes_requested ∷ rejected ∷ []) pending_review user
        ActionType.submitted "" d)
      (λ e.
        send (notify_reviewers members user post.id post_submitted)
          (with_reminder post.id pending_review e))

abbrev pub approvable : List Status
approvable = pending_review ∷ pending_client ∷ draft ∷ rejected ∷ changes_requested ∷ []

abbrev pub is_two_stage : ApprovalWorkflowMode → Bool
is_two_stage required_internal_and_client = true
is_two_stage _ = false

unfoldable pub approve_post :
    ℕ → ApprovalWorkflowMode → Target → ℕ → List WorkspaceMembership → String → Desk → Bool × Desk
unfolding is_target approve_row moved_rows record_actions reset_reminder notify_clients
    notify_author
approve_post now mode target user members comment d =
    let post = target_post target in
    let rows = d.store.platform_posts in
    let two_stage = is_two_stage mode in
    let done = moved_rows target approvable approved rows in
    let to_client = any (advances two_stage) (filter (is_target target approvable) rows) in
    if is_empty done
    then (false, d)
    else (let decided = record d {
      store = record (d.store) {
        platform_posts =
            update_where (is_target target approvable) (approve_row now two_stage) rows;
      };
      actions = d.actions ++ record_actions target done user ActionType.approved comment;
    } in
        (
          true,
          if to_client
              then send (notify_clients members post.id client_approval_requested)
                  (with_reminder post.id pending_client decided)
              else send (notify_author post post.author user post_approved) decided,
        ))

unfoldable pub request_changes : ℕ → Target → ℕ → String → Desk → Result ApprovalError (Bool × Desk)
unfolding is_blank decide notify_author
request_changes now target user comment d =
    let post = target_post target in
    raise_if (is_blank comment) comment_required
    >> ok (
        and_then
          (decide now target (pending_review ∷ pending_client ∷ []) changes_requested user
            ActionType.changes_requested comment d)
          (send (notify_author post post.author user post_changes_requested)))

unfoldable pub reject_post : ℕ → Target → ℕ → String → Desk → Result ApprovalError (Bool × Desk)
unfolding is_blank decide notify_author
reject_post now target user comment d =
    let post = target_post target in
    raise_if (is_blank comment) comment_required
    >> ok (
        and_then
          (decide now target (pending_review ∷ pending_client ∷ []) rejected user
            ActionType.rejected comment d)
          (send (notify_author post post.author user post_rejected)))

unfoldable pub request_hold :
    ℕ → Target → ℕ → List WorkspaceMembership → String → Desk → Result ApprovalError (Bool × Desk)
unfolding is_blank decide notify_reviewers
request_hold now target user members comment d =
    let post = target_post target in
    raise_if (is_blank comment) comment_required
    >> ok (
        and_then (decide now target (approved ∷ []) on_hold user ActionType.held comment d)
          (send (notify_reviewers members user post.id approval_hold_requested)))

unfoldable pub resume_hold : ℕ → Target → ℕ → Desk → Bool × Desk
unfolding decide
resume_hold now target user d =
    decide now target (on_hold ∷ []) approved user ActionType.approved "Hold lifted." d

unfoldable pub resubmit_post : ℕ → Target → ℕ → List WorkspaceMembership → Desk → Bool × Desk
unfolding decide reset_reminder notify_reviewers
resubmit_post now target user members d =
    let post = target_post target in
    and_then
      (decide now target (changes_requested ∷ rejected ∷ approved ∷ []) pending_review user
        ActionType.resubmitted "" d)
      (λ e.
        send (notify_reviewers members user post.id post_submitted)
          (with_reminder post.id pending_review e))

-- The rows of the query of `bulk_approve` and `bulk_reject`: the listed posts of the workspace that
-- have a child waiting for a decision.
unfoldable pub awaiting : List ℕ → ℕ → Store → List Post
awaiting ids workspace_id s =
    filter
      (λ p.
        any (λ k. k == p.id) ids
        && p.workspace_id == workspace_id
        && any
            (λ q. q.post_id == p.id && (is q.status pending_review || is q.status pending_client))
            s.platform_posts)
      s.posts

-- The loop of `bulk_approve`: each post's answer, in order.
unfoldable pub approve_each :
    ℕ
    → ApprovalWorkflowMode
    → ℕ
    → List WorkspaceMembership
    → List Post
    → Desk
    → List (ℕ × Bool) × Desk
unfolding approve_post
approve_each now mode user members [] d = ([], d)
approve_each now mode user members (p ∷ ps) d =
    let (done, e) = approve_post now mode (whole p) user members "" d in
    let (rest, f) = approve_each now mode user members ps e in ((p.id, done) ∷ rest, f)

unfoldable pub bulk_approve :
    ℕ
    → ApprovalWorkflowMode
    → List ℕ
    → ℕ
    → ℕ
    → List WorkspaceMembership
    → Desk
    → List (ℕ × Bool) × Desk
unfolding awaiting approve_each
bulk_approve now mode ids workspace_id user members d =
    approve_each now mode user members (awaiting ids workspace_id d.store) d
