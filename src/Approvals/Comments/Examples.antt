-- ===== src/Approvals/Comments/Examples.antt =====
-- Tests and examples of the comments: an external comment with an internal reply, and an internal
-- comment, read by a client and deleted by a manager.
use bright_bean_paysys.Common.{ℕ, ◌≡◌, ◌≢◌, refl, Option, none, some, [], ◌∷◌, Memᴰ, ok}
use mathlib.Core.List.Memᴰ.{head}
use bright_bean_paysys.Common.Sorting.{insert_by, order_by}
use bright_bean_paysys.Samples.{a_post}
use bright_bean_paysys.Members.Roles.{
  WorkspaceRole, WorkspaceMembership, effective_permissions, builtin_permissions,
}
use bright_bean_paysys.ApiKeys.Token.{same}
use bright_bean_paysys.Approvals.Comments.{
  PostComment, Visibility, internal, external, Talk, named, targets, active_replies,
  get_comments_for_post, delete_found, delete_comment,
}
use bright_bean_paysys.Approvals.Comments.Laws.{
  IsListing, get_comments_for_post-IsListing, delete_comment-hides,
}

abbrev comment : ℕ → Option ℕ → Visibility → PostComment
comment k parent visibility = record {
  id = k;
  post = a_post 1;
  author = some 6;
  parent_comment = parent;
  body = [];
  visibility = visibility;
  created_at = k;
  updated_at = k;
  deleted_at = none;
}

abbrev member : ℕ → ℕ → WorkspaceRole → WorkspaceMembership
member user ws role = record {
  user = user;
  workspace_id = ws;
  workspace_role = role;
  custom_role = none;
}

-- User 5 is a client of workspace 1, user 8 a manager of workspace 2 only.
abbrev talk : Talk
talk = record {
  comments =
      comment 1 none external
      ∷ comment 2 (some 1) internal
      ∷ comment 3 none internal
      ∷ comment 4 none external
      ∷ [];
  memberships = member 5 1 WorkspaceRole.client ∷ member 8 2 WorkspaceRole.manager ∷ [];
  outbox = [];
}

-- The internal reply is shown to the client.
shown_to_client :
    get_comments_for_post (a_post 1) 5 talk
    ≡ (comment 1 none external, comment 2 (some 1) internal ∷ [])
      ∷ (comment 4 none external, [])
      ∷ []
unfolding get_comments_for_post active_replies order_by insert_by
shown_to_client = refl

-- The manager of another workspace may delete the comment.
deleted_from_outside : (t : Talk) × (delete_comment 20 4 8 2 talk ≡ ok t)
unfolding delete_comment delete_found effective_permissions builtin_permissions
deleted_from_outside = (_, refl)

-- Names are told once, and the author is not.
told :
    targets 6
      (record { id = 6; display = 1 ∷ []; email_prefix = 2 ∷ [] }
        ∷ record { id = 7; display = 3 ∷ []; email_prefix = 4 ∷ [] }
        ∷ [])
      []
      ((1 ∷ []) ∷ (3 ∷ []) ∷ (4 ∷ []) ∷ (9 ∷ []) ∷ [])
    ≡ 7 ∷ []
unfolding targets named same
told = refl

get_comments_for_post-IsListing_example : IsListing (a_post 1) 5 talk
get_comments_for_post-IsListing_example = get_comments_for_post-IsListing (a_post 1) 5 talk

delete_comment-hides_example :
    ◌≢◌ {A = ℕ} 1 4 × ((r : PostComment) → Memᴰ r (comment 2 (some 1) internal ∷ []) → r.id ≢ 4)
unfolding get_comments_for_post active_replies order_by insert_by delete_comment delete_found
    effective_permissions builtin_permissions deleted_from_outside
delete_comment-hides_example =
    delete_comment-hides 20 4 8 2 talk deleted_from_outside.0 (a_post 1) 5 (comment 1 none external)
      (comment 2 (some 1) internal ∷ []) deleted_from_outside.1 (head refl)
