-- ===== src/Composer/Services.antt =====
-- brightbean-studio/apps/composer/services.py: creating posts, moving their children through the
-- workflow, and keeping `Post.scheduled_at` at the earliest child. `now` is `timezone.now()`.
pub mod Sync
pub mod Laws
mod Examples
use bright_bean_paysys.Common.{
  ℕ, suc, String, Bool, true, false, not, ◌&&◌, ◌||◌, Option, none, some, List, [], ◌∷◌, ◌++◌, map,
  ◌==◌, leb, if◌then◌else◌, is_some, any, Result, ok, err, ◌>>=◌, ◌>>◌, raise_if,
}
use bright_bean_paysys.Store.{
  ApprovalWorkflowMode, required_internal, required_internal_and_client, Workspace, SocialAccount,
  needs_reconnect, Post, PlatformPost, PostMedia, MediaAsset, QueueEntry, Store, children,
  save_post, save_platform_post, delete_entries,
}
use bright_bean_paysys.Composer.Status.{Status, draft, scheduled, published, is, can_transition}

-- The `ValueError`s of the module, and the database's refusal of a row that breaks
-- `unique_together`.
pub data ServiceError : Type 0 where
  bad_initial_status schedule_required wrong_workspace reconnect_required : ServiceError
  approval_required media_not_found integrity_error invalid_transition : ServiceError

-- the values of a nullable column that are set
unfoldable pub set_values : List (Option ℕ) → List ℕ
set_values [] = []
set_values (none ∷ ts) = set_values ts
set_values (some t ∷ ts) = t ∷ set_values ts

-- `list(post.platform_posts.exclude(scheduled_at__isnull=True).values_list("scheduled_at"))`
unfoldable pub scheduled_times : ℕ → List PlatformPost → List ℕ
unfolding set_values
scheduled_times k pps = set_values (map (λ pp. pp.scheduled_at) (children k pps))

-- `min(times)`
unfoldable pub earliest : ℕ → List ℕ → ℕ
earliest t [] = t
earliest t (u ∷ us) = earliest (if leb t u then t else u) us

abbrev pub same_time : Option ℕ → ℕ → Bool
same_time none t = false
same_time (some u) t = u == t

-- The row that `sync_post_scheduled_at` leaves, from the children's times.
unfoldable pub synced : ℕ → List ℕ → Post → Post
unfolding earliest
synced now [] post =
    if is_some post.scheduled_at
    then record post { scheduled_at = none; updated_at = now }
    else post
synced now (t ∷ ts) post =
    let first = earliest t ts in
    if same_time post.scheduled_at first && not (is_some post.proposed_publish_at)
    then post
    else record post { scheduled_at = some first; proposed_publish_at = none; updated_at = now }

unfoldable pub sync_post_scheduled_at : ℕ → ℕ → Store → Store
unfolding scheduled_times synced
sync_post_scheduled_at now post_id s =
    save_post post_id (synced now (scheduled_times post_id s.platform_posts)) s

-- `_require_approval_gate_passes`: the modes in `_APPROVAL_MODES_BLOCKING_DIRECT_SCHEDULE` raise.
abbrev pub blocks_direct_schedule : ApprovalWorkflowMode → Bool
blocks_direct_schedule required_internal = true
blocks_direct_schedule required_internal_and_client = true
blocks_direct_schedule _ = false

-- The row in its new status.
unfoldable pub moved : ℕ → Status → PlatformPost → PlatformPost
moved now target pp =
    if is target published
    then record pp { status = target; published_at = some now }
    else record pp { status = target }

-- `PlatformPost.transition_to`: it raises on a transition that is not allowed.
unfoldable pub transition_to : ℕ → Status → PlatformPost → Result ServiceError PlatformPost
transition_to now target pp =
    if can_transition pp.status target then ok (moved now target pp) else err invalid_transition

abbrev pub or_else : Option ℕ → Option ℕ → Option ℕ
or_else (some t) u = some t
or_else none u = u

-- The entries that stay when the post's entries on one channel are deleted.
abbrev pub other_entry : ℕ → ℕ → QueueEntry → Bool
other_entry post_id account e = not (e.post_id == post_id && e.queue.social_account_id == account)

-- The columns that `transition_platform_post` saves besides those of `transition_to`.
unfoldable pub reschedule : ℕ → Status → Option ℕ → PlatformPost → PlatformPost
reschedule now target scheduled_at pp =
    if is target scheduled
    then record pp { scheduled_at = or_else scheduled_at pp.scheduled_at; updated_at = now }
    else if is target draft
    then record pp { scheduled_at = none; updated_at = now }
    else record pp { updated_at = now }

-- The transaction after `transition_to`: the row is saved, a drafted channel leaves its queue slot,
-- and the post's own time follows.
unfoldable pub persist : ℕ → Status → Option ℕ → PlatformPost → Store → Store
unfolding reschedule sync_post_scheduled_at
persist now target scheduled_at pp s =
    let row = reschedule now target scheduled_at pp in
    let saved = save_platform_post pp.id (λ _. row) s in
    let freed =
      if is target draft
      then delete_entries (other_entry pp.post_id pp.social_account_id) saved
      else saved in
    sync_post_scheduled_at now pp.post_id freed

-- `mode` is the approval mode of the workspace of the row's post, and `pp` the row as it was read.
unfoldable pub transition_platform_post :
    ℕ → ApprovalWorkflowMode → Status → Option ℕ → PlatformPost → Store → Result ServiceError Store
unfolding transition_to
transition_platform_post now mode target scheduled_at pp s = do
  raise_if (is target scheduled && blocks_direct_schedule mode) approval_required
  row ← transition_to now target pp
  ok (persist now target scheduled_at row s)

-- The arguments of `create_post`. `media_asset_ids` holds `none` for what is no UUID; the overrides
-- are those of the account in `platform_overrides`.
pub record NewPost : Type 0 where
  pub caption : String
  pub title : String
  pub first_comment : String
  pub internal_notes : String
  pub scheduled_at : Option ℕ
  pub proposed_publish_at : Option ℕ
  pub author : Option ℕ
  pub status : Status
  pub override_title : Option String
  pub override_caption : Option String
  pub override_first_comment : Option String
  pub media_asset_ids : List (Option ℕ)

-- A reference is in `asset_map`: it is well formed, and names an asset of the workspace.
unfoldable pub is_asset : List MediaAsset → ℕ → Option ℕ → Bool
is_asset assets ws none = false
is_asset assets ws (some k) = any (λ a. a.id == k && a.workspace_id == ws) assets

unfoldable pub has_duplicate : List ℕ → Bool
has_duplicate [] = false
has_duplicate (x ∷ xs) = any (λ y. y == x) xs || has_duplicate xs

-- The rows of the loop over `enumerate(resolved)`.
unfoldable pub attach : ℕ → ℕ → List ℕ → List PostMedia
attach post_id position [] = []
attach post_id position (k ∷ ks) =
    record { post_id = post_id; media_asset_id = k; position = position; alt_text = "" }
    ∷ attach post_id (suc position) ks

-- The checks of `create_post`, in its order.
unfoldable pub check_new_post :
    Workspace → SocialAccount → NewPost → Store → Result ServiceError (Unit {0})
unfolding is_asset
check_new_post ws account new s = do
  raise_if (not (is new.status draft || is new.status scheduled)) bad_initial_status
  raise_if (is new.status scheduled && not (is_some new.scheduled_at)) schedule_required
  raise_if (not (account.workspace_id == ws.id)) wrong_workspace
  raise_if (needs_reconnect account.connection_status) reconnect_required
  raise_if (is new.status scheduled && blocks_direct_schedule ws.approval_workflow_mode)
      approval_required
  raise_if (any (λ m. not (is_asset s.media_assets ws.id m)) new.media_asset_ids) media_not_found
  raise_if (has_duplicate (set_values new.media_asset_ids)) integrity_error

abbrev pub committed_time : NewPost → Option ℕ
committed_time new = if is new.status scheduled then new.scheduled_at else none

abbrev pub new_post_row : ℕ → ℕ → Workspace → NewPost → Post
new_post_row now post_id ws new = record {
  id = post_id;
  workspace_id = ws.id;
  author = new.author;
  title = new.title;
  caption = new.caption;
  first_comment = new.first_comment;
  internal_notes = new.internal_notes;
  scheduled_at = committed_time new;
  published_at = none;
  proposed_publish_at = new.proposed_publish_at;
  updated_at = now;
}

abbrev pub new_platform_post_row : ℕ → ℕ → ℕ → SocialAccount → NewPost → PlatformPost
new_platform_post_row now pp_id post_id account new = record {
  id = pp_id;
  post_id = post_id;
  social_account_id = account.id;
  platform_specific_title = new.override_title;
  platform_specific_caption = new.override_caption;
  platform_specific_first_comment = new.override_first_comment;
  status = new.status;
  platform_post_id = "";
  publish_error = "";
  published_at = none;
  scheduled_at = committed_time new;
  retry_count = 0;
  next_retry_at = none;
  updated_at = now;
}

-- `post_id` and `pp_id` are the fresh UUIDs of the two rows.
unfoldable pub create_post :
    ℕ → ℕ → ℕ → Workspace → SocialAccount → NewPost → Store → Result ServiceError Store
unfolding check_new_post attach sync_post_scheduled_at
create_post now post_id pp_id ws account new s = do
  check_new_post ws account new s
  let media = attach post_id 0 (set_values new.media_asset_ids)
  let created = record s {
    posts = s.posts ++ new_post_row now post_id ws new ∷ [];
    platform_posts = s.platform_posts ++ new_platform_post_row now pp_id post_id account new ∷ [];
    post_media = s.post_media ++ media;
  }
  ok (sync_post_scheduled_at now post_id created)
