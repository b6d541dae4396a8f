-- ===== src/Approvals/Rows.antt =====
-- brightbean-studio/apps/approvals/services.py, its internal helpers: the rows that a decision is
-- about, and the transition of one row.
use bright_bean_paysys.Common.{ℕ, Bool, true, false, ◌&&◌, ◌||◌, List, ◌==◌, if◌then◌else◌, filter}
use bright_bean_paysys.Store.{Post, PlatformPost}
use bright_bean_paysys.Common.Rows.{update_where}
use bright_bean_paysys.Composer.Status.{
  Status, is, is_in, can_transition, approved, pending_client, pending_review,
}
use bright_bean_paysys.Composer.Services.{moved}

-- The argument `target`: a post with all its children, or one child of a post.
pub data Target : Type 0 where
  whole : Post → Target
  single : Post → ℕ → Target

abbrev pub target_post : Target → Post
target_post (whole post) = post
target_post (single post _) = post

abbrev pub is_bundled : Target → Bool
is_bundled (whole _) = true
is_bundled (single _ _) = false

-- `_resolve_targets`: only the bundled form looks at the eligible states.
unfoldable pub is_target : Target → List Status → PlatformPost → Bool
is_target (whole post) eligible q = q.post_id == post.id && is_in q.status eligible
is_target (single post k) eligible q = q.id == k

-- The answer of `_transition_or_skip`, and the row that it leaves.
unfoldable pub transition_or_skip : Status → PlatformPost → Bool
transition_or_skip goal q = is q.status goal || can_transition q.status goal

unfoldable pub transitioned : ℕ → Status → PlatformPost → PlatformPost
transitioned now goal q =
    if is q.status goal
    then q
    else if can_transition q.status goal
    then (let r = moved now goal q in record r { updated_at = now })
    else q

-- The loop over the targets of a decision with one goal, and the rows that it moves.
unfoldable pub move_all : ℕ → Target → List Status → Status → List PlatformPost → List PlatformPost
unfolding is_target transitioned
move_all now target eligible goal = update_where (is_target target eligible) (transitioned now goal)

unfoldable pub moved_rows : Target → List Status → Status → List PlatformPost → List PlatformPost
unfolding is_target transition_or_skip
moved_rows target eligible goal =
    filter (λ q. is_target target eligible q && transition_or_skip goal q)

-- One round of the loop of `approve_post`: an internal approval hops on to the client.
unfoldable pub advances : Bool → PlatformPost → Bool
unfolding transition_or_skip transitioned
advances two_stage q = two_stage && is q.status pending_review && transition_or_skip approved q

unfoldable pub approve_row : ℕ → Bool → PlatformPost → PlatformPost
unfolding advances
approve_row now two_stage q =
    let r = transitioned now approved q in
    if advances two_stage q then transitioned now pending_client r else r
