-- ===== src/Approvals/Comments.antt =====
-- brightbean-studio/apps/approvals/comments.py: the comments on a post. The names that a text
-- mentions (a regular expression, lowered) and the keys that a member is known by (the display name
-- and the front of the address, lowered) are given.
pub mod Laws
pub mod Examples
use bright_bean_paysys.Common.{
  ℕ, ◌*◌, Bool, true, false, not, ◌&&◌, ◌||◌, Option, none, some, is_some, List, [], ◌∷◌, ◌++◌, map,
  ◌==◌, ltb, any, filter, find, if◌then◌else◌, Result, ok, err, ◌>>=◌, ◌>>◌, raise_if,
}
use bright_bean_paysys.Common.Rows.{update_where}
use bright_bean_paysys.Common.Sorting.{order_by}
use bright_bean_paysys.Store.{Post}
use bright_bean_paysys.Members.Roles.{
  WorkspaceRole, owner, manager, editor, contributor, client, viewer, approve_posts,
  WorkspaceMembership, effective_permissions,
}
use bright_bean_paysys.Notifications.Events.{comment_mention}
use bright_bean_paysys.ApiKeys.Token.{Codes, same}
use bright_bean_paysys.Approvals.Notices.{Notice}

-- `PostComment.Visibility`
pub data Visibility : Type 0 where
  internal external : Visibility

pub record PostComment : Type 0 where
  pub id : ℕ
  pub post : Post
  pub author : Option ℕ
  pub parent_comment : Option ℕ
  pub body : Codes
  pub visibility : Visibility
  pub created_at : ℕ
  pub updated_at : ℕ
  pub deleted_at : Option ℕ

-- A member of the workspace, with the two keys of `name_to_user`.
pub record Mentionable : Type 0 where
  pub id : ℕ
  pub display : Codes
  pub email_prefix : Codes

pub record Talk : Type 0 where
  pub comments : List PostComment
  pub memberships : List WorkspaceMembership
  pub outbox : List Notice

-- The `ValueError`s and the `PermissionError`s
pub data CommentError : Type 0 where
  attachment_too_large comment_not_found not_the_author not_allowed : CommentError

abbrev pub max_attachment_size : ℕ
max_attachment_size = 5 * 1024 * 1024

abbrev pub is_undeleted : PostComment → Bool
is_undeleted c = not (is_some c.deleted_at)

abbrev pub is_external : Visibility → Bool
is_external internal = false
is_external external = true

abbrev pub is_live_comment : ℕ → PostComment → Bool
is_live_comment k c = c.id == k && is_undeleted c

-- The parent is kept only when it is a live comment of the same post.
abbrev pub id_of : Option PostComment → Option ℕ
id_of none = none
id_of (some c) = some c.id

abbrev pub parent_of : Post → List PostComment → Option ℕ → Option ℕ
parent_of post comments none = none
parent_of post comments (some k) =
    id_of (find (λ c. is_live_comment k c && c.post.id == post.id) comments)

abbrev pub is_too_large : Option ℕ → Bool
is_too_large none = false
is_too_large (some size) = ltb max_attachment_size size

-- `name_to_user`: a later entry replaces an earlier one.
unfoldable pub named : Codes → List Mentionable → Option Mentionable
unfolding same
named name [] = none
named name (m ∷ ms) = later (named name ms)
  where
    later : Option Mentionable → Option Mentionable
    later (some found) = some found
    later none = if same name m.email_prefix || same name m.display then some m else none

-- `_notify_mentions`: each mentioned member but the author is told once.
abbrev pub new_target : ℕ → List ℕ → Option Mentionable → List ℕ
new_target author notified none = []
new_target author notified (some m) =
    if not (m.id == author) && not (any (λ k. k == m.id) notified) then m.id ∷ [] else []

unfoldable pub targets : ℕ → List Mentionable → List ℕ → List Codes → List ℕ
unfolding named
targets author members notified [] = []
targets author members notified (name ∷ names) =
    let fresh = new_target author notified (named name members) in
    fresh ++ targets author members (fresh ++ notified) names

abbrev pub mention_notice : ℕ → ℕ → Notice
mention_notice post_id user = record {
  user = user;
  event_type = comment_mention;
  post_id = post_id;
}

abbrev pub new_comment : ℕ → ℕ → Post → ℕ → Codes → Visibility → Option ℕ → PostComment
new_comment now key post author body visibility parent = record {
  id = key;
  post = post;
  author = some author;
  parent_comment = parent;
  body = body;
  visibility = visibility;
  created_at = now;
  updated_at = now;
  deleted_at = none;
}

-- `mentions` are the names that the body mentions, `members` the users of the workspace.
unfoldable pub create_comment :
    ℕ
    → ℕ
    → Post
    → ℕ
    → Codes
    → Visibility
    → Option ℕ
    → Option ℕ
    → List Codes
    → List Mentionable
    → Talk
    → Result CommentError (PostComment × Talk)
unfolding targets
create_comment now key post author body visibility parent attachment mentions members t = do
  raise_if (is_too_large attachment) attachment_too_large
  let comment = new_comment now key post author body visibility (parent_of post t.comments parent)
  ok (
    comment,
    record t {
      comments = t.comments ++ (comment ∷ []);
      outbox = t.outbox ++ map (mention_notice post.id) (targets author members [] mentions);
    },
  )

abbrev pub or_missing : Option PostComment → Result CommentError PostComment
or_missing none = err comment_not_found
or_missing (some c) = ok c

abbrev pub wrote : ℕ → Option ℕ → Bool
wrote user none = false
wrote user (some author) = author == user

abbrev pub is_post_of : Option ℕ → Post → Bool
is_post_of none p = true
is_post_of (some ws) p = p.workspace_id == ws

abbrev pub save_comment : ℕ → (PostComment → PostComment) → Talk → Talk
save_comment k f t = record t { comments = update_where (λ c. c.id == k) f t.comments }

unfoldable pub update_comment : ℕ → ℕ → ℕ → Codes → Option ℕ → Talk → Result CommentError Talk
update_comment now k user body workspace t = do
  comment ← or_missing (find (λ c. is_live_comment k c && is_post_of workspace c.post) t.comments)
  raise_if (not (wrote user comment.author)) not_the_author
  ok (save_comment k (λ c. record c { body = body; updated_at = now }) t)

abbrev pub membership_in : ℕ → ℕ → List WorkspaceMembership → Option WorkspaceMembership
membership_in user ws = find (λ m. m.user == user && m.workspace_id == ws)

abbrev pub may_moderate : Option WorkspaceMembership → Bool
may_moderate none = false
may_moderate (some m) = effective_permissions m approve_posts

-- By the author, or with the right to approve posts
unfoldable pub delete_found : ℕ → ℕ → ℕ → ℕ → Talk → Option PostComment → Result CommentError Talk
delete_found now k user workspace t none = err comment_not_found
delete_found now k user workspace t (some c) =
    raise_if
      (not (wrote user c.author) && not (may_moderate (membership_in user workspace t.memberships)))
      not_allowed
    >> ok (save_comment k (λ c. record c { deleted_at = some now; updated_at = now }) t)

-- The comment is looked up by its key only; `workspace` is where the role of the user is read.
unfoldable pub delete_comment : ℕ → ℕ → ℕ → ℕ → Talk → Result CommentError Talk
unfolding delete_found
delete_comment now k user workspace t =
    delete_found now k user workspace t (find (is_live_comment k) t.comments)

abbrev pub is_client_member : Option WorkspaceMembership → Bool
is_client_member none = false
is_client_member (some m) = elim m.workspace_role [
  | client ↦ true
  | owner ↦ false
  | manager ↦ false
  | editor ↦ false
  | contributor ↦ false
  | viewer ↦ false
]

abbrev pub is_child_of : ℕ → Option ℕ → Bool
is_child_of k none = false
is_child_of k (some p) = p == k

-- The prefetched replies of a comment
unfoldable pub active_replies : List PostComment → PostComment → List PostComment
active_replies comments c =
    order_by (λ r. r.created_at)
      (filter (λ r. is_undeleted r && is_child_of c.id r.parent_comment) comments)

abbrev pub is_top_level : Post → PostComment → Bool
is_top_level post c = c.post.id == post.id && is_undeleted c && not (is_some c.parent_comment)

-- The comments that are shown, each with its replies.
unfoldable pub get_comments_for_post : Post → ℕ → Talk → List (PostComment × List PostComment)
unfolding active_replies
get_comments_for_post post user t =
    let only_external = is_client_member (membership_in user post.workspace_id t.memberships) in
    map (λ c. (c, active_replies t.comments c))
      (order_by (λ c. c.created_at)
        (filter (λ c. is_top_level post c && (not only_external || is_external c.visibility))
          t.comments))
