-- ===== src/Approvals/Reminders/Examples.antt =====
-- A post that waits for its review through three checks.
use bright_bean_paysys.Common.{refl, inl, List, [], ◌∷◌, none, arith, Memᴰ}
use mathlib.Core.List.Memᴰ.{head}
use bright_bean_paysys.Composer.Status.{pending_review, is}
use bright_bean_paysys.Members.Roles.{WorkspaceRole, WorkspaceMembership}
use bright_bean_paysys.Approvals.Notices.{Desk}
use bright_bean_paysys.Approvals.Reminders.{
  is_stalled, check_approval_reminders, process_stage, process_posts, process_post, reminder_of,
}
use bright_bean_paysys.Approvals.Reminders.Sending.{stalled_notice}
use bright_bean_paysys.Approvals.Reminders.Escalation.{check_approval_reminders-escalates}
use bright_bean_paysys.Approvals.Reminders.Checks.{IsStuck}
use bright_bean_paysys.Samples.{a_post, a_channel, a_store}

abbrev desk : Desk
desk = record {
  store = a_store (a_channel 4 pending_review none ∷ []);
  actions = [];
  reminders = [];
  outbox = [];
}

abbrev manager : WorkspaceMembership
manager = record {
  user = 6;
  workspace_id = 1;
  workspace_role = WorkspaceRole.manager;
  custom_role = none;
}

abbrev table : List WorkspaceMembership
table = manager ∷ []

abbrev second_desk : Desk
second_desk = check_approval_reminders 100000 table desk

abbrev third_desk : Desk
third_desk = check_approval_reminders 200000 table second_desk

first-IsStuck : IsStuck pending_review (a_post 1) 100000 desk.store
unfolding is_stalled is
first-IsStuck = record { listed = head refl; once = refl; stalled = refl }

second-IsStuck : IsStuck pending_review (a_post 1) 200000 second_desk.store
unfolding is_stalled is check_approval_reminders process_stage process_posts process_post
second-IsStuck = record { listed = head refl; once = refl; stalled = refl }

third-IsStuck : IsStuck pending_review (a_post 1) 300000 third_desk.store
unfolding is_stalled is check_approval_reminders process_stage process_posts process_post
third-IsStuck = record { listed = head refl; once = refl; stalled = refl }

check_approval_reminders-escalates_example :
    Memᴰ
      (stalled_notice manager (a_post 1))
      (check_approval_reminders 300000 table third_desk).outbox
check_approval_reminders-escalates_example =
    check_approval_reminders-escalates pending_review (a_post 1) manager 100000 200000 300000 table
      table table desk second_desk third_desk (inl refl) first-IsStuck second-IsStuck third-IsStuck
      (ground arith) (unfold reminder_of in refl) refl refl (head refl, refl, refl)
