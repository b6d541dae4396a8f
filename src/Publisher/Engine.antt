-- ===== src/Publisher/Engine.antt =====
-- brightbean-studio/apps/publisher/engine.py: which channels are due, and the poll. The threads of
-- one poll work on different channels; here they run one after the other.
use bright_bean_paysys.Common.{
  ℕ, Bool, true, false, not, ◌&&◌, Option, none, some, List, [], ◌∷◌, ◌==◌, ltb, leb, max,
  if◌then◌else◌, filter, any, map, is_empty,
}
use bright_bean_paysys.Common.Rows.{update_where}
use bright_bean_paysys.Common.Sorting.{order_by, first_rows}
use bright_bean_paysys.Store.{
  Post, PlatformPost, Store, children, save_post, save_platform_post, get_post,
}
use bright_bean_paysys.Composer.Status.{scheduled, publishing, on_hold, is}
use bright_bean_paysys.Composer.Services.{or_else, set_values, same_time}
use bright_bean_paysys.Publisher.Attempt.{Outcome, max_retries, publish_platform_post}

abbrev pub column_of : Option Post → Option ℕ
column_of none = none
column_of (some p) = p.scheduled_at

-- `Coalesce("scheduled_at", "post__scheduled_at")`
unfoldable pub effective_at : Store → PlatformPost → Option ℕ
effective_at s pp = or_else pp.scheduled_at (column_of (get_post pp.post_id s))

abbrev pub at_most : Option ℕ → ℕ → Bool
at_most none now = false
at_most (some t) now = leb t now

-- Some channel of the post is on hold.
unfoldable pub is_held : ℕ → List PlatformPost → Bool
is_held post_id rows = any (λ q. is q.status on_hold) (children post_id rows)

-- The rows that the query of `_get_due_platform_posts` selects.
unfoldable pub is_due : ℕ → Store → PlatformPost → Bool
is_due now s pp =
    is pp.status scheduled
    && at_most (effective_at s pp) now
    && not (is_held pp.post_id s.platform_posts)

abbrev pub time_or_zero : Option ℕ → ℕ
time_or_zero none = 0
time_or_zero (some t) = t

-- the default of the setting PUBLISHER_MAX_CONCURRENT_PUBLISHES
abbrev pub max_concurrent_publishes : ℕ
max_concurrent_publishes = 10

unfoldable pub get_due_platform_posts : ℕ → Store → List PlatformPost
unfolding is_due order_by first_rows
get_due_platform_posts now s =
    first_rows max_concurrent_publishes
      (order_by (λ pp. time_or_zero (effective_at s pp)) (filter (is_due now s) s.platform_posts))

-- `_sync_parent_published_at`: the latest time at which a channel was published.
unfoldable pub latest : ℕ → List ℕ → ℕ
latest t [] = t
latest t (u ∷ us) = latest (max t u) us

unfoldable pub published_sync : ℕ → List ℕ → Post → Post
unfolding latest
published_sync now [] post = post
published_sync now (t ∷ ts) post =
    if same_time post.published_at (latest t ts)
    then post
    else record post { published_at = some (latest t ts); updated_at = now }

unfoldable pub sync_parent_published_at : ℕ → ℕ → Store → Store
unfolding published_sync set_values
sync_parent_published_at now post_id s =
    save_post post_id
      (published_sync now
        (set_values (map (λ pp. pp.published_at) (children post_id s.platform_posts))))
      s

unfoldable pub publish_all : ℕ → (PlatformPost → Outcome) → List PlatformPost → Store → Store
unfolding publish_platform_post
publish_all now dispatch [] s = s
publish_all now dispatch (pp ∷ pps) s =
    publish_all now dispatch pps (publish_platform_post now dispatch pp s).1

-- The rows that `_publish_post_group` claims under its lock.
unfoldable pub claimed : ℕ → List ℕ → Store → List PlatformPost
claimed post_id due_ids s =
    filter (λ q. any (λ k. k == q.id) due_ids && is q.status scheduled)
      (children post_id s.platform_posts)

unfoldable pub mark_publishing : List PlatformPost → Store → Store
mark_publishing pps s = record s {
  platform_posts =
      update_where (λ q. any (λ pp. pp.id == q.id) pps) (λ q. record q { status = publishing })
        s.platform_posts;
}

-- `_publish_post_group`
unfoldable pub publish_post_group : ℕ → (PlatformPost → Outcome) → ℕ → List ℕ → Store → Store
unfolding is_held claimed mark_publishing publish_all sync_parent_published_at
publish_post_group now dispatch post_id due_ids s =
    if is_held post_id s.platform_posts
    then s
    else (let pps = claimed post_id due_ids s in
        if is_empty pps
        then s
        else sync_parent_published_at now post_id
            (publish_all now dispatch pps (mark_publishing pps s)))

-- The rows of the query of `_process_retries`.
unfoldable pub is_retry_due : ℕ → Store → PlatformPost → Bool
is_retry_due now s pp =
    is pp.status scheduled
    && ltb 0 pp.retry_count
    && leb pp.retry_count max_retries
    && at_most pp.next_retry_at now
    && not (is_held pp.post_id s.platform_posts)

abbrev pub when_success : Bool → (Store → Store) → Store → Store
when_success true f s = f s
when_success false f s = s

-- The row as it is set to `publishing`, and saved, before the attempt.
abbrev pub retrying : ℕ → PlatformPost → PlatformPost
retrying now pp = record pp { status = publishing; updated_at = now }

abbrev pub save_retrying : ℕ → PlatformPost → Store → Store
save_retrying now pp s = save_platform_post pp.id (retrying now) s

unfoldable pub retry_one : ℕ → (PlatformPost → Outcome) → PlatformPost → Store → Store
unfolding publish_platform_post sync_parent_published_at is_held
retry_one now dispatch pp s =
    if is_held pp.post_id s.platform_posts
    then s
    else (let (done, after) =
          publish_platform_post now dispatch (retrying now pp) (save_retrying now pp s) in
        when_success done (sync_parent_published_at now pp.post_id) after)

unfoldable pub retry_all : ℕ → (PlatformPost → Outcome) → List PlatformPost → Store → Store
unfolding retry_one
retry_all now dispatch [] s = s
retry_all now dispatch (pp ∷ pps) s = retry_all now dispatch pps (retry_one now dispatch pp s)

unfoldable pub process_retries : ℕ → (PlatformPost → Outcome) → Store → Store
unfolding retry_all is_retry_due
process_retries now dispatch s =
    retry_all now dispatch (filter (is_retry_due now s) s.platform_posts) s

-- The groups by post, in the order of their first rows.
unfoldable pub group_posts : List PlatformPost → List ℕ
group_posts [] = []
group_posts (pp ∷ pps) = pp.post_id ∷ filter (λ k. not (k == pp.post_id)) (group_posts pps)

unfoldable pub publish_groups :
    ℕ → (PlatformPost → Outcome) → List PlatformPost → List ℕ → Store → Store
unfolding publish_post_group
publish_groups now dispatch due [] s = s
publish_groups now dispatch due (k ∷ ks) s =
    publish_groups now dispatch due ks
      (publish_post_group now dispatch k (map (λ pp. pp.id) (children k due)) s)

-- `poll_and_publish`
unfoldable pub poll_and_publish : ℕ → (PlatformPost → Outcome) → Store → Store
unfolding get_due_platform_posts group_posts publish_groups process_retries
poll_and_publish now dispatch s =
    let due = get_due_platform_posts now s in
    process_retries now dispatch (publish_groups now dispatch due (group_posts due) s)
