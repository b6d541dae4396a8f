-- ===== src/Calendar/Repair.antt =====
-- brightbean-studio/apps/calendar/services.py: the repair of published posts that an earlier version
-- gave a slot in the future. The descriptions of the rows for a dry run are left out of the answer.
pub mod Laws
use bright_bean_paysys.Common.{
  ℕ, ◌+◌, Bool, true, false, not, ◌&&◌, ◌||◌, Option, none, some, List, [], ◌∷◌, map, ◌==◌, ltb,
  is_some, is_empty, if◌then◌else◌, filter, find, any, length,
}
use bright_bean_paysys.Common.Rows.{update_where}
use bright_bean_paysys.Store.{Post, PlatformPost, QueueEntry, Store, get_post}
use bright_bean_paysys.Composer.Status.{scheduled, published, is}
use bright_bean_paysys.Composer.Services.{sync_post_scheduled_at}

abbrev pub is_later : Option ℕ → Option ℕ → Bool
is_later (some t) (some u) = ltb u t
is_later _ _ = false

abbrev pub post_in : ℕ → Option Post → Bool
post_in ws none = false
post_in ws (some post) = post.workspace_id == ws

abbrev pub is_chosen : Option ℕ → Option Post → Bool
is_chosen none post = true
is_chosen (some ws) post = post_in ws post

-- The rows of the query `affected`.
unfoldable pub is_affected : Option ℕ → List Post → PlatformPost → Bool
is_affected ws posts q =
    is q.status published
    && is_later q.scheduled_at q.published_at
    && is_chosen ws (find (λ p. p.id == q.post_id) posts)

-- A scheduled child without a time is pinned to the time of its post.
abbrev pub is_unpinned : ℕ → PlatformPost → Bool
is_unpinned post_id q =
    q.post_id == post_id && is q.status scheduled && not (is_some q.scheduled_at)

abbrev pub pin_children : ℕ → Option ℕ → List PlatformPost → List PlatformPost
pin_children post_id none rows = rows
pin_children post_id (some t) rows =
    update_where (is_unpinned post_id) (λ q. record q { scheduled_at = some t }) rows

unfoldable pub pin_all : List Post → List PlatformPost → List PlatformPost
pin_all [] rows = rows
pin_all (post ∷ posts) rows = pin_all posts (pin_children post.id post.scheduled_at rows)

-- `affected.update(scheduled_at=F("published_at"))`
unfoldable pub snap : Option ℕ → List Post → List PlatformPost → List PlatformPost
unfolding is_affected
snap ws posts =
    update_where (is_affected ws posts) (λ q. record q { scheduled_at = q.published_at })

-- The queue entries whose slot is later than the channel was published.
unfoldable pub is_stale : PlatformPost → QueueEntry → Bool
is_stale q e =
    e.post_id == q.post_id
    && e.queue.social_account_id == q.social_account_id
    && is_later e.assigned_slot_datetime q.published_at

unfoldable pub reset_entries : List PlatformPost → List QueueEntry → List QueueEntry
unfolding is_stale
reset_entries [] es = es
reset_entries (q ∷ qs) es =
    reset_entries qs
      (update_where (is_stale q) (λ e. record e { assigned_slot_datetime = q.published_at }) es)

-- The rows that the updates of entries change, and those that a dry run counts.
unfoldable pub count_reset : List PlatformPost → List QueueEntry → ℕ
unfolding is_stale
count_reset [] es = 0
count_reset (q ∷ qs) es =
    let rest =
      count_reset qs (
        update_where (is_stale q) (λ e. record e { assigned_slot_datetime = q.published_at }) es) in
    length (filter (is_stale q) es) + rest

unfoldable pub count_stale : List PlatformPost → List QueueEntry → ℕ
unfolding is_stale
count_stale [] es = 0
count_stale (q ∷ qs) es = let rest = count_stale qs es in length (filter (is_stale q) es) + rest

unfoldable pub sync_all : ℕ → List Post → Store → Store
unfolding sync_post_scheduled_at
sync_all now [] s = s
sync_all now (post ∷ posts) s = sync_all now posts (sync_post_scheduled_at now post.id s)

pub record Summary : Type 0 where
  pub platform_post_count : ℕ
  pub post_count : ℕ
  pub queue_entry_count : ℕ
  pub applied : Bool

abbrev pub affected_of : Option ℕ → Store → List PlatformPost
affected_of ws s = filter (is_affected ws s.posts) s.platform_posts

-- `Post.objects.filter(id__in=post_ids)`
abbrev pub affected_posts : Option ℕ → Store → List Post
affected_posts ws s = filter (λ post. any (λ q. q.post_id == post.id) (affected_of ws s)) s.posts

unfoldable pub repaired : ℕ → Option ℕ → Store → Store
unfolding is_affected pin_all snap reset_entries sync_all
repaired now ws s =
    let posts = affected_posts ws s in
    sync_all now posts (record s {
      platform_posts = snap ws s.posts (pin_all posts s.platform_posts);
      queue_entries = reset_entries (affected_of ws s) s.queue_entries;
    })

-- `repair_future_published_scheduled_at`
unfoldable pub repair_future_published_scheduled_at : ℕ → Option ℕ → Bool → Store → Summary × Store
unfolding repaired count_reset count_stale is_affected
repair_future_published_scheduled_at now ws apply s =
    let rows = affected_of ws s in
    let applied = apply && not (is_empty rows) in
    (
      record {
        platform_post_count = length rows;
        post_count = length (affected_posts ws s);
        queue_entry_count =
            if applied then count_reset rows s.queue_entries else count_stale rows s.queue_entries;
        applied = applied;
      },
      if applied then repaired now ws s else s,
    )
