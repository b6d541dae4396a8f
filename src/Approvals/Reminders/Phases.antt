-- ===== src/Approvals/Reminders/Phases.antt =====
-- How the hourly check of brightbean-studio/apps/approvals/tasks.py moves the reminder of one post
-- and one stage.
use bright_bean_paysys.Common.{
  ℕ, zero, suc, ◌≡◌, ◌≢◌, refl, sym, ◌∙◌, ap, subst, ◌⊎◌, inl, inr, true, false, some, List, [],
  ◌∷◌, ◌++◌, arith, ◌==◌, ==_iff, if◌then◌else◌, find, any, Bool-cases,
}
use bright_bean_paysys.Common.Rows.{update_where}
use bright_bean_paysys.Store.{Post}
use bright_bean_paysys.Composer.Status.{Status, is_iff}
use bright_bean_paysys.Members.Roles.{WorkspaceMembership}
use bright_bean_paysys.Approvals.Notices.{ApprovalReminder, Desk, is_reminder, fresh_reminder}
use bright_bean_paysys.Approvals.Reminders.{
  reacted, Reaction, silent, reminds, escalates, next_reminder, row_or_fresh, reminder_of,
  get_or_create, process_post, process_posts,
}

is_reminder_key :
    (p : ℕ) (st : Status) (r : ApprovalReminder)
    → is_reminder p st r ≡ true
    → (r.post_id ≡ p) × (r.stage ≡ st)
is_reminder_key p st r e = ground (arith, is_iff r.stage st)

key_is_reminder :
    (p : ℕ) (st : Status) (r : ApprovalReminder)
    → r.post_id ≡ p
    → r.stage ≡ st
    → is_reminder p st r ≡ true
key_is_reminder p st r e k = ground (arith, is_iff r.stage st)

find-IsReminder :
    (p : ℕ) (st : Status) (rs : List ApprovalReminder)
    → is_reminder p st (row_or_fresh p st (find (is_reminder p st) rs)) ≡ true
find-IsReminder p st [] = key_is_reminder p st (fresh_reminder p st) refl refl
find-IsReminder p st (r ∷ rs) = elim (Bool-cases (is_reminder p st r)) [
  | inl e ↦ rw e e
  | inr e ↦ rw e (find-IsReminder p st rs)
]

-- A table in which the row of another key changes.
module _ (p : ℕ) (st : Status) (q : ℕ) (st' : Status) (v : ApprovalReminder) where
  abbrev pub IsOther : Type 0
  IsOther = (p ≢ q) ⊎ (st ≢ st')

  other_row :
      IsOther → (r : ApprovalReminder) → is_reminder q st' r ≡ true → is_reminder p st r ≡ false
  other_row o r e =
      let (k, s) = is_reminder_key q st' r e in
      elim (Bool-cases (is_reminder p st r)) [
        | inl d ↦
            (let (k', s') = is_reminder_key p st r d in
              elim o [ inl n ↦ absurd (n (sym k' ∙ k)) | inr n ↦ absurd (n (sym s' ∙ s)) ])
        | inr d ↦ d
      ]

  find-update_other :
      IsOther
      → is_reminder q st' v ≡ true
      → (rs : List ApprovalReminder)
      → find (is_reminder p st) (update_where (is_reminder q st') (λ _. v) rs)
        ≡ find (is_reminder p st) rs
  find-update_other o iv [] = refl
  find-update_other o iv (r ∷ rs) = elim (Bool-cases (is_reminder q st' r)) [
    | inl e ↦ rw (e, other_row o r e, other_row o v iv) (find-update_other o iv rs)
    | inr e ↦ rw e (ap (λ f. if is_reminder p st r then some r else f) (find-update_other o iv rs))
  ]

  find-append_other :
      IsOther
      → is_reminder q st' v ≡ true
      → (rs : List ApprovalReminder)
      → find (is_reminder p st) (rs ++ v ∷ []) ≡ find (is_reminder p st) rs
  find-append_other o iv [] = rw (other_row o v iv) refl
  find-append_other o iv (r ∷ rs) =
      ap (λ f. if is_reminder p st r then some r else f) (find-append_other o iv rs)

find-update_same :
    (q : ℕ) (st : Status) (v : ApprovalReminder) (rs : List ApprovalReminder)
    → is_reminder q st v ≡ true
    → any (is_reminder q st) rs ≡ true
    → find (is_reminder q st) (update_where (is_reminder q st) (λ _. v) rs) ≡ some v
find-update_same q st v [] iv a = absurd (ground arith)
find-update_same q st v (r ∷ rs) iv a = elim (Bool-cases (is_reminder q st r)) [
  | inl e ↦ rw (e, iv) refl
  | inr e ↦ let a' = rw e at a in rw (e, e) (find-update_same q st v rs iv a')
]

any_last :
    (q : ℕ) (st : Status) (rs : List ApprovalReminder)
    → any (is_reminder q st) (rs ++ fresh_reminder q st ∷ []) ≡ true
any_last q st [] = rw (key_is_reminder q st (fresh_reminder q st) refl refl) refl
any_last q st (r ∷ rs) = ground (arith, any_last q st rs)

any-get_or_create :
    (q : ℕ) (st : Status) (rs : List ApprovalReminder)
    → any (is_reminder q st) (get_or_create q st rs) ≡ true
unfolding get_or_create
any-get_or_create q st rs = elim (Bool-cases (any (is_reminder q st) rs)) [
  | inl e ↦ rw e e
  | inr e ↦ rw e (any_last q st rs)
]

find-with_other :
    (p : ℕ) (st : Status) (q : ℕ) (st' : Status) (rs : List ApprovalReminder)
    → IsOther p st q st' (fresh_reminder q st')
    → find (is_reminder p st) (get_or_create q st' rs) ≡ find (is_reminder p st) rs
unfolding get_or_create
find-with_other p st q st' rs o = elim (Bool-cases (any (is_reminder q st') rs)) [
  | inl e ↦ rw e refl
  | inr e ↦ rw e (
      find-append_other p st q st' (fresh_reminder q st') o
        (key_is_reminder q st' (fresh_reminder q st') refl refl) rs)
]

reacted-IsReminder :
    (now : ℕ) (w : Reaction) (q : ℕ) (st : Status) (r : ApprovalReminder)
    → is_reminder q st r ≡ true
    → is_reminder q st (reacted now w r) ≡ true
reacted-IsReminder now silent q st r e = e
reacted-IsReminder now reminds q st r e = e
reacted-IsReminder now escalates q st r e = e

-- The reminder after so many rounds for its post.
abbrev pub rounds : ℕ → ℕ → ℕ → ApprovalReminder → ApprovalReminder
rounds now threshold zero r = r
rounds now threshold (suc n) r = rounds now threshold n (next_reminder now threshold r)

abbrev pub times_listed : ℕ → List Post → ℕ
times_listed p [] = 0
times_listed p (post ∷ posts) =
    let rest = times_listed p posts in if post.id == p then suc rest else rest

module _ (now : ℕ) (st : Status) (threshold : ℕ) (table : List WorkspaceMembership) where
  pub process_post_own :
      (post : Post) (d : Desk)
      → reminder_of post.id st (process_post now st threshold table post d).reminders
        ≡ next_reminder now threshold (reminder_of post.id st d.reminders)
  unfolding process_post reminder_of
  process_post_own post d = ap (row_or_fresh post.id st) (
      find-update_same post.id st _ _
        (reacted-IsReminder now _ post.id st _ (find-IsReminder post.id st d.reminders))
        (any-get_or_create post.id st d.reminders))

  pub process_post_other :
      (p : ℕ) (st' : Status) (post : Post) (d : Desk)
      → (p ≢ post.id) ⊎ (st' ≢ st)
      → reminder_of p st' (process_post now st threshold table post d).reminders
        ≡ reminder_of p st' d.reminders
  unfolding process_post reminder_of
  process_post_other p st' post d o = ap (row_or_fresh p st') (
      find-update_other p st' post.id st _ o
        (reacted-IsReminder now _ post.id st _ (find-IsReminder post.id st d.reminders)) _
      ∙ find-with_other p st' post.id st d.reminders o)

  pub process_posts_own :
      (p : ℕ) (posts : List Post) (d : Desk)
      → reminder_of p st (process_posts now st threshold table posts d).reminders
        ≡ rounds now threshold (times_listed p posts) (reminder_of p st d.reminders)
  unfolding process_posts
  process_posts_own p [] d = refl
  process_posts_own p (post ∷ posts) d =
      let later = process_posts_own p posts (process_post now st threshold table post d) in
      elim (Bool-cases (post.id == p)) [
        | inl e ↦ rw e (
            later
            ∙ ap (rounds now threshold (times_listed p posts)) (
                subst
                  (λ k.
                    reminder_of k st (process_post now st threshold table post d).reminders
                    ≡ next_reminder now threshold (reminder_of k st d.reminders))
                  ((==_iff post.id p).0 e) (process_post_own post d)))
        | inr e ↦ rw e (
            later
            ∙ ap (rounds now threshold (times_listed p posts))
                (process_post_other p st post d (inl (λ k. ground arith))))
      ]

  pub process_posts_other :
      (p : ℕ) (st' : Status) (posts : List Post) (d : Desk)
      → st' ≢ st
      → reminder_of p st' (process_posts now st threshold table posts d).reminders
        ≡ reminder_of p st' d.reminders
  unfolding process_posts
  process_posts_other p st' [] d n = refl
  process_posts_other p st' (post ∷ posts) d n =
      process_posts_other p st' posts (process_post now st threshold table post d) n
      ∙ process_post_other p st' post d (inr n)
