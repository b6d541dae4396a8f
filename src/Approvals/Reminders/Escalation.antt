-- ===== src/Approvals/Reminders/Escalation.antt =====
-- A post that keeps waiting reaches the managers of its workspace
-- (brightbean-studio/apps/approvals/tasks.py).
use bright_bean_paysys.Common.{
  ℕ, ◌+◌, ◌≤◌, ◌≡◌, refl, ◌∙◌, ap, false, none, some, List, arith, Memᴰ,
}
use bright_bean_paysys.Store.{Post}
use bright_bean_paysys.Composer.Status.{Status}
use bright_bean_paysys.Members.Roles.{WorkspaceMembership}
use bright_bean_paysys.Approvals.Notices.{ApprovalReminder, Desk, fresh_reminder}
use bright_bean_paysys.Approvals.Reminders.{
  hours, reaction, escalates, next_reminder, reminder_of, is_cooling, check_approval_reminders,
}
use bright_bean_paysys.Approvals.Reminders.Sending.{stalled_notice, IsManagerOf}
use bright_bean_paysys.Approvals.Reminders.Checks.{
  threshold_of, IsStage, IsStuck, check_own, check-Escalates,
}

first_step :
    (t h : ℕ) (r : ApprovalReminder)
    → r.reminder_count ≡ 0
    → r.last_reminder_at ≡ none
    → next_reminder t h r ≡ record r { reminder_count = 1; last_reminder_at = some t }
unfolding reaction
first_step t h r e l = rw (e, l) refl

not_cooling : (t u h : ℕ) → t + hours h ≤ u → is_cooling u h (some t) ≡ false
not_cooling t u h le = ground arith

second_step :
    (t u h : ℕ) (r : ApprovalReminder)
    → r.reminder_count ≡ 1
    → r.last_reminder_at ≡ some t
    → t + hours h ≤ u
    → next_reminder u h r ≡ record r { reminder_count = 2; last_reminder_at = some u }
unfolding reaction
second_step t u h r e l le = rw (e, l, not_cooling t u h le) refl

third_step :
    (u h : ℕ) (r : ApprovalReminder)
    → r.reminder_count ≡ 2
    → r.escalated ≡ false
    → reaction u h r ≡ escalates
unfolding reaction
third_step u h r e l = rw (e, l) refl

-- A post that no reminder was sent about, and that each of three checks finds waiting too long in
-- one stage, the second a full threshold after the first, is reported to every manager of its
-- workspace by the third. Between the checks everything but the post's reminder may change; the
-- post stands in the table of posts once.
pub check_approval_reminders-escalates :
    (st : Status) (post : Post) (m : WorkspaceMembership) (t1 t2 t3 : ℕ)
    (table1 table2 table3 : List WorkspaceMembership) (d1 d2 d3 : Desk)
    → IsStage st
    → IsStuck st post t1 d1.store
    → IsStuck st post t2 d2.store
    → IsStuck st post t3 d3.store
    → t1 + hours (threshold_of st) ≤ t2
    → reminder_of post.id st d1.reminders ≡ fresh_reminder post.id st
    → reminder_of post.id st d2.reminders
      ≡ reminder_of post.id st (check_approval_reminders t1 table1 d1).reminders
    → reminder_of post.id st d3.reminders
      ≡ reminder_of post.id st (check_approval_reminders t2 table2 d2).reminders
    → IsManagerOf m post table3
    → Memᴰ (stalled_notice m post) (check_approval_reminders t3 table3 d3).outbox
check_approval_reminders-escalates st post m t1 t2 t3 table1 table2 table3 d1 d2 d3 i k1 k2 k3 le f
      e2 e3 j =
    let h = threshold_of st in
    let once =
      e2
      ∙ check_own t1 table1 d1 post st i k1
      ∙ ap (next_reminder t1 h) f
      ∙ first_step t1 h (fresh_reminder post.id st) refl refl in
    let twice =
      e3
      ∙ check_own t2 table2 d2 post st i k2
      ∙ ap (next_reminder t2 h) once
      ∙ second_step t1 t2 h _ refl refl le in
    check-Escalates t3 table3 d3 post m st i j k3
      (ap (reaction t3 h) twice ∙ third_step t3 h _ refl refl)
