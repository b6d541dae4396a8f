-- ===== src/Approvals/Reminders/Sending.antt =====
-- What one pass of the hourly check of brightbean-studio/apps/approvals/tasks.py puts into the outbox.
use bright_bean_paysys.Common.{
  ℕ, ◌≤◌, ◌≡◌, ◌≢◌, sym, ◌∙◌, ap, subst, inl, true, List, [], ◌∷◌, arith, ◌==◌, filter, Memᴰ,
  Memᴰ-filter, Memᴰ-map,
}
use mathlib.Core.List.Memᴰ
use mathlib.Core.List.Memᴰ.{head, tail}
use bright_bean_paysys.Store.{Post}
use bright_bean_paysys.Composer.Status.{Status}
use bright_bean_paysys.Members.Roles.{WorkspaceMembership}
use bright_bean_paysys.Notifications.Events.{approval_stalled}
use bright_bean_paysys.Approvals.Notices.{Desk, Notice}
use bright_bean_paysys.Approvals.Reminders.{
  reaction, escalates, reminder_of, escalate, is_manager, process_post, process_posts,
}
use bright_bean_paysys.Approvals.Reminders.Phases.{times_listed, process_post_other}

-- What the check tells a member of the workspace, once it escalates.
abbrev pub stalled_notice : WorkspaceMembership → Post → Notice
stalled_notice m post = record { user = m.user; event_type = approval_stalled; post_id = post.id }

abbrev pub IsManagerOf : WorkspaceMembership → Post → List WorkspaceMembership → Type 0
IsManagerOf m post table =
    Memᴰ m table
    × ((m.workspace_id == post.workspace_id) ≡ true)
    × (is_manager m.workspace_role ≡ true)

escalate-Memᴰ :
    (m : WorkspaceMembership) (post : Post) (table : List WorkspaceMembership)
    → IsManagerOf m post table
    → Memᴰ
        (stalled_notice m post)
        (escalate (filter (λ k. k.workspace_id == post.workspace_id) table) post.id)
unfolding escalate
escalate-Memᴰ m post table (h, w, r) =
    Memᴰ-map (λ k. record { user = k.user; event_type = approval_stalled; post_id = post.id }) m _
      (Memᴰ-filter (λ k. is_manager k.workspace_role) m _ r
        (Memᴰ-filter (λ k. k.workspace_id == post.workspace_id) m table w h))

pub listed_once :
    (post : Post) (posts : List Post) → Memᴰ post posts → 1 ≤ times_listed post.id posts
listed_once post [] h = absurd (Memᴰ.not-nil h)
listed_once post (q ∷ posts) (head e) = rw (sym e) (ground arith)
listed_once post (q ∷ posts) (tail h) = let k = listed_once post posts h in ground arith

another :
    (post q : Post) (posts : List Post)
    → 1 ≤ times_listed post.id posts
    → times_listed post.id (q ∷ posts) ≡ 1
    → (post.id ≢ q.id) × (times_listed post.id posts ≡ 1)
another post q posts l u = ((λ k. ground arith), ground arith)

module _ (now : ℕ) (st : Status) (threshold : ℕ) (table : List WorkspaceMembership)
    (n : Notice) where
  process_post-Memᴰ :
      (post : Post) (d : Desk)
      → Memᴰ n d.outbox
      → Memᴰ n (process_post now st threshold table post d).outbox
  unfolding process_post
  process_post-Memᴰ post d h = Memᴰ.append_left _ h

  pub process_posts-Memᴰ :
      (posts : List Post) (d : Desk)
      → Memᴰ n d.outbox
      → Memᴰ n (process_posts now st threshold table posts d).outbox
  unfolding process_posts
  process_posts-Memᴰ [] d h = h
  process_posts-Memᴰ (post ∷ posts) d h = process_posts-Memᴰ posts _ (process_post-Memᴰ post d h)

module _ (now : ℕ) (st : Status) (threshold : ℕ) (table : List WorkspaceMembership) where
  process_post-escalates :
      (m : WorkspaceMembership) (post : Post) (d : Desk)
      → IsManagerOf m post table
      → reaction now threshold (reminder_of post.id st d.reminders) ≡ escalates
      → Memᴰ (stalled_notice m post) (process_post now st threshold table post d).outbox
  unfolding process_post
  process_post-escalates m post d i e =
      rw e (Memᴰ.append_right d.outbox (escalate-Memᴰ m post table i))

  pub process_posts-escalates :
      (m : WorkspaceMembership) (post : Post) (posts : List Post) (d : Desk)
      → IsManagerOf m post table
      → Memᴰ post posts
      → times_listed post.id posts ≡ 1
      → reaction now threshold (reminder_of post.id st d.reminders) ≡ escalates
      → Memᴰ (stalled_notice m post) (process_posts now st threshold table posts d).outbox
  unfolding process_posts
  process_posts-escalates m post [] d i h u e = absurd (Memᴰ.not-nil h)
  process_posts-escalates m post (q ∷ posts) d i (head same) u e =
      process_posts-Memᴰ now st threshold table (stalled_notice m post) posts _ (
        subst (λ k. Memᴰ (stalled_notice m post) (process_post now st threshold table k d).outbox)
          same (process_post-escalates m post d i e))
  process_posts-escalates m post (q ∷ posts) d i (tail h) u e =
      let l = listed_once post posts h in
      let (other, u') = another post q posts l u in
      process_posts-escalates m post posts _ i h u' (
        ap (reaction now threshold)
          (process_post_other now st threshold table post.id st q d (inl other))
        ∙ e)
