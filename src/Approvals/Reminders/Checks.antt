-- ===== src/Approvals/Reminders/Checks.antt =====
-- What one hourly check of brightbean-studio/apps/approvals/tasks.py does about one post.
use bright_bean_paysys.Common.{
  ℕ, ◌≤◌, ◌≡◌, ◌≢◌, refl, sym, ◌∙◌, ap, subst, ◌⊎◌, inl, inr, Bool, true, List, [], ◌∷◌, arith,
  filter, Memᴰ, Memᴰ-filter,
}
use bright_bean_paysys.Store.{Post, Store}
use bright_bean_paysys.Composer.Status.{Status, pending_review, pending_client}
use bright_bean_paysys.Members.Roles.{WorkspaceMembership}
use bright_bean_paysys.Approvals.Notices.{Desk}
use bright_bean_paysys.Approvals.Reminders.{
  pending_review_hours, pending_client_hours, reaction, escalates, next_reminder, reminder_of,
  process_post, process_posts, process_stage, is_stalled, stalled_posts, check_approval_reminders,
}
use bright_bean_paysys.Approvals.Reminders.Phases.{
  rounds, times_listed, process_posts_own, process_posts_other,
}
use bright_bean_paysys.Approvals.Reminders.Sending.{
  stalled_notice, IsManagerOf, listed_once, process_posts-Memᴰ, process_posts-escalates,
}

abbrev pub threshold_of : Status → ℕ
threshold_of pending_client = pending_client_hours
threshold_of _ = pending_review_hours

abbrev pub IsStage : Status → Type 0
IsStage st = (st ≡ pending_review) ⊎ (st ≡ pending_client)

process_posts_store :
    (now : ℕ) (st : Status) (threshold : ℕ) (table : List WorkspaceMembership) (posts : List Post)
    (d : Desk)
    → (process_posts now st threshold table posts d).store ≡ d.store
unfolding process_posts process_post
process_posts_store now st threshold table [] d = refl
process_posts_store now st threshold table (post ∷ posts) d =
    process_posts_store now st threshold table posts _

times_listed-filter :
    (keep : Post → Bool) (p : ℕ) (posts : List Post)
    → times_listed p (filter keep posts) ≤ times_listed p posts
times_listed-filter keep p [] = ground arith
times_listed-filter keep p (post ∷ posts) = let k = times_listed-filter keep p posts in ground arith

-- The post stands in the table once, and waits too long in the stage.
pub record IsStuck (st : Status) (post : Post) (now : ℕ) (s : Store) : Type 0 where
  pub listed : Memᴰ post s.posts
  pub once : times_listed post.id s.posts ≡ 1
  pub stalled : is_stalled now st (threshold_of st) s post ≡ true

module _ (st : Status) (post : Post) (now : ℕ) (s : Store) (k : IsStuck st post now s) where
  stuck_listed : Memᴰ post (stalled_posts now st (threshold_of st) s)
  stuck_listed = Memᴰ-filter (is_stalled now st (threshold_of st) s) post s.posts k.stalled k.listed

  stuck_once : times_listed post.id (stalled_posts now st (threshold_of st) s) ≡ 1
  stuck_once =
      let most = times_listed-filter (is_stalled now st (threshold_of st) s) post.id s.posts in
      let least = listed_once post _ stuck_listed in let one = k.once in omega arith

client_neq : pending_client ≢ pending_review
client_neq e = ground arith

module _ (now : ℕ) (table : List WorkspaceMembership) (d : Desk) (post : Post) where
  -- The second pass of the check finds the desk of the first with the same tables of posts.
  client_store : (process_stage now pending_review pending_review_hours table d).store ≡ d.store
  unfolding process_stage
  client_store =
      process_posts_store now pending_review pending_review_hours table
        (stalled_posts now pending_review pending_review_hours d.store) d

  client_kept :
      reminder_of post.id pending_client
        (process_stage now pending_review pending_review_hours table d).reminders
      ≡ reminder_of post.id pending_client d.reminders
  unfolding process_stage
  client_kept =
      process_posts_other now pending_review pending_review_hours table post.id pending_client
        (stalled_posts now pending_review pending_review_hours d.store) d client_neq

stage_own :
    (now : ℕ) (st : Status) (table : List WorkspaceMembership) (d : Desk) (post : Post)
    → IsStuck st post now d.store
    → reminder_of post.id st (process_stage now st (threshold_of st) table d).reminders
      ≡ next_reminder now (threshold_of st) (reminder_of post.id st d.reminders)
unfolding process_stage
stage_own now st table d post k =
    process_posts_own now st (threshold_of st) table post.id
      (stalled_posts now st (threshold_of st) d.store) d
    ∙ ap (λ n. rounds now (threshold_of st) n (reminder_of post.id st d.reminders))
        (stuck_once st post now d.store k)

stage-escalates :
    (now : ℕ) (st : Status) (table : List WorkspaceMembership) (d : Desk) (post : Post)
    (m : WorkspaceMembership)
    → IsStuck st post now d.store
    → IsManagerOf m post table
    → reaction now (threshold_of st) (reminder_of post.id st d.reminders) ≡ escalates
    → Memᴰ (stalled_notice m post) (process_stage now st (threshold_of st) table d).outbox
unfolding process_stage
stage-escalates now st table d post m k i e =
    process_posts-escalates now st (threshold_of st) table m post _ d i
      (stuck_listed st post now d.store k) (stuck_once st post now d.store k) e

abbrev reviewed : ℕ → List WorkspaceMembership → Desk → Desk
reviewed now table d = process_stage now pending_review pending_review_hours table d

abbrev pub StepsOnce : ℕ → List WorkspaceMembership → Desk → Post → Status → Type 0
StepsOnce now table d post st =
    reminder_of post.id st (check_approval_reminders now table d).reminders
    ≡ next_reminder now (threshold_of st) (reminder_of post.id st d.reminders)

review_own :
    (now : ℕ) (table : List WorkspaceMembership) (d : Desk) (post : Post)
    → IsStuck pending_review post now d.store
    → StepsOnce now table d post pending_review
unfolding check_approval_reminders process_stage
review_own now table d post k =
    process_posts_other now pending_client pending_client_hours table post.id pending_review
      (stalled_posts now pending_client pending_client_hours (reviewed now table d).store)
      (reviewed now table d) (λ e. client_neq (sym e))
    ∙ stage_own now pending_review table d post k

client_own :
    (now : ℕ) (table : List WorkspaceMembership) (d : Desk) (post : Post)
    → IsStuck pending_client post now d.store
    → StepsOnce now table d post pending_client
unfolding check_approval_reminders
client_own now table d post k =
    stage_own now pending_client table (reviewed now table d) post
      (subst (IsStuck pending_client post now) (sym (client_store now table d post)) k)
    ∙ ap (next_reminder now pending_client_hours) (client_kept now table d post)

pub check_own :
    (now : ℕ) (table : List WorkspaceMembership) (d : Desk) (post : Post) (st : Status)
    → IsStage st
    → IsStuck st post now d.store
    → StepsOnce now table d post st
check_own now table d post st (inl e) =
    subst (λ s. IsStuck s post now d.store → StepsOnce now table d post s) (sym e)
      (review_own now table d post)
check_own now table d post st (inr e) =
    subst (λ s. IsStuck s post now d.store → StepsOnce now table d post s) (sym e)
      (client_own now table d post)

abbrev pub Escalates :
    ℕ → List WorkspaceMembership → Desk → Post → WorkspaceMembership → Status → Type 0
Escalates now table d post m st =
    IsStuck st post now d.store
    → reaction now (threshold_of st) (reminder_of post.id st d.reminders) ≡ escalates
    → Memᴰ (stalled_notice m post) (check_approval_reminders now table d).outbox

review-Escalates :
    (now : ℕ) (table : List WorkspaceMembership) (d : Desk) (post : Post) (m : WorkspaceMembership)
    → IsManagerOf m post table
    → Escalates now table d post m pending_review
unfolding check_approval_reminders process_stage
review-Escalates now table d post m i k e =
    process_posts-Memᴰ now pending_client pending_client_hours table (stalled_notice m post)
      (stalled_posts now pending_client pending_client_hours (reviewed now table d).store)
      (reviewed now table d) (stage-escalates now pending_review table d post m k i e)

client-Escalates :
    (now : ℕ) (table : List WorkspaceMembership) (d : Desk) (post : Post) (m : WorkspaceMembership)
    → IsManagerOf m post table
    → Escalates now table d post m pending_client
unfolding check_approval_reminders
client-Escalates now table d post m i k e =
    stage-escalates now pending_client table (reviewed now table d) post m
      (subst (IsStuck pending_client post now) (sym (client_store now table d post)) k) i
      (ap (reaction now pending_client_hours) (client_kept now table d post) ∙ e)

pub check-Escalates :
    (now : ℕ) (table : List WorkspaceMembership) (d : Desk) (post : Post) (m : WorkspaceMembership)
    (st : Status)
    → IsStage st
    → IsManagerOf m post table
    → Escalates now table d post m st
check-Escalates now table d post m st (inl e) i =
    subst (Escalates now table d post m) (sym e) (review-Escalates now table d post m i)
check-Escalates now table d post m st (inr e) i =
    subst (Escalates now table d post m) (sym e) (client-Escalates now table d post m i)
