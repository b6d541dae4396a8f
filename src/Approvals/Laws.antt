-- ===== src/Approvals/Laws.antt =====
-- What the decisions of brightbean-studio/apps/approvals/services.py may do to the channels.
use bright_bean_paysys.Common.{
  ℕ, String, ◌≡◌, refl, Bool, true, false, ◌||◌, List, sym, subst, ◌⊎◌, is_empty, any, filter,
  raise_if, ◌>>◌, arith, Bool-cases, inl, inr, Result, ok, err,
}
use bright_bean_paysys.Common.Rows.{
  Rows, Rows-refl, Rows-map, update_where, update_where-Rows, All-of,
}
use bright_bean_paysys.Store.{ApprovalWorkflowMode, PlatformPost}
use bright_bean_paysys.Composer.Status.{
  Status, pending_review, pending_client, approved, changes_requested, rejected, on_hold, scheduled,
  publishing, published, failed, is, is_iff, can_transition,
}
use bright_bean_paysys.Composer.Status.Machine.{Run, here, step, anywhere, Run-trans}
use bright_bean_paysys.Composer.Services.{moved}
use bright_bean_paysys.Members.Roles.{WorkspaceMembership}
use bright_bean_paysys.Approvals.Rows.{
  Target, is_target, transitioned, move_all, moved_rows, advances, approve_row,
}
use bright_bean_paysys.Approvals.Notices.{ActionType, Desk}
use bright_bean_paysys.Approvals.Services.{
  ApprovalError, comment_required, is_blank, and_then, decide, submit_for_review, approve_post,
  request_changes, reject_post, request_hold, resume_hold, resubmit_post, approvable, is_two_stage,
}

-- Statuses that only the composer and the publisher move.
abbrev pub is_committed : Status → Bool
is_committed scheduled = true
is_committed publishing = true
is_committed published = true
is_committed failed = true
is_committed _ = false

-- The statuses that a decision leads to.
abbrev pub is_goal : Status → Bool
is_goal pending_review = true
is_goal pending_client = true
is_goal approved = true
is_goal changes_requested = true
is_goal rejected = true
is_goal on_hold = true
is_goal _ = false

-- How a row may change: only its status and its modification time do, the status along the state
-- machine, and a committed row not at all.
pub record Decided (q r : PlatformPost) : Type 0 where
  pub same : r ≡ record q { status = r.status; updated_at = r.updated_at }
  pub run : Run anywhere q.status r.status
  pub kept : is_committed q.status ≡ true → r ≡ q

pub Decided-refl : (q : PlatformPost) → Decided q q
Decided-refl q = record { same = refl; run = here; kept = λ _. refl }

pub Decided-trans : (p q r : PlatformPost) → Decided p q → Decided q r → Decided p r
Decided-trans p q r h k = record {
  same = ground arith;
  run = Run-trans h.run k.run;
  kept = λ c. ground (arith, h.kept c, k.kept);
}

-- One status leads to another in a decision: it stays, it follows an edge of the state machine, or it
-- hops from the internal review over the approval to the client.
abbrev pub IsMove : Status → Status → Type 0
IsMove s t = (t ≡ s) ⊎ (can_transition s t ≡ true) ⊎ ((s ≡ pending_review) × (t ≡ pending_client))

-- How one decision may change a row: only its status and its modification time do, by one move, and
-- a committed row not at all.
pub record Moved (q r : PlatformPost) : Type 0 where
  pub same : r ≡ record q { status = r.status; updated_at = r.updated_at }
  pub move : IsMove q.status r.status
  pub kept : is_committed q.status ≡ true → r ≡ q

Moved-refl : (q : PlatformPost) → Moved q q
Moved-refl q = record { same = refl; move = inl refl; kept = λ _. refl }

committed_stays :
    (s goal : Status)
    → is_committed s ≡ true
    → is_goal goal ≡ true
    → (is s goal || can_transition s goal) ≡ false
unfolding is can_transition
committed_stays s goal c g = ground arith

pub transitioned-cases :
    (now : ℕ) (goal : Status) (q : PlatformPost)
    → is_goal goal ≡ true
    → (transitioned now goal q ≡ q)
      ⊎ ((transitioned now goal q ≡ record q { status = goal; updated_at = now })
          × (can_transition q.status goal ≡ true)
          × (is_committed q.status ≡ false))
unfolding transitioned moved
transitioned-cases now goal q g =
    ground (arith, is_iff goal published, committed_stays q.status goal)

Moved-edge :
    (now : ℕ) (goal : Status) (q r : PlatformPost)
    → r ≡ record q { status = goal; updated_at = now }
    → can_transition q.status goal ≡ true
    → is_committed q.status ≡ false
    → Moved q r
Moved-edge now goal q r e c f = rw e (record { same = refl; move = inr (inl c); kept = λ h. cc })

transitioned-Moved :
    (now : ℕ) (goal : Status) (q : PlatformPost)
    → is_goal goal ≡ true
    → Moved q (transitioned now goal q)
transitioned-Moved now goal q g = elim (transitioned-cases now goal q g) [
  | inl e ↦ rw e (Moved-refl q)
  | inr (e, c, f) ↦ Moved-edge now goal q (transitioned now goal q) e c f
]

hop-Moved :
    (now : ℕ) (q : PlatformPost)
    → q.status ≡ pending_review
    → Moved q (transitioned now pending_client (transitioned now approved q))
hop-Moved now q p = elim (transitioned-cases now approved q refl) [
  | inl e ↦ rw e (transitioned-Moved now pending_client q refl)
  | inr (e, c, f) ↦
      let r = record q { status = approved; updated_at = now } in
      rw e (elim (transitioned-cases now pending_client r refl) [
        | inl d ↦ rw d (Moved-edge now approved q r refl c f)
        | inr (d, _, _) ↦ rw d (record { same = refl; move = inr (inr (p, refl)); kept = λ h. cc })
      ])
]

advances-review :
    (two_stage : Bool) (q : PlatformPost) → advances two_stage q ≡ true → q.status ≡ pending_review
unfolding advances
advances-review two_stage q h = ground (arith, is_iff q.status pending_review)

approve_row-Moved :
    (now : ℕ) (two_stage : Bool) (q : PlatformPost) → Moved q (approve_row now two_stage q)
unfolding approve_row
approve_row-Moved now two_stage q = elim (Bool-cases (advances two_stage q)) [
  | inl e ↦ rw e (hop-Moved now q (advances-review two_stage q e))
  | inr e ↦ rw e (transitioned-Moved now approved q refl)
]

abbrev pub RowsMoved : Desk → Desk → Type 0
RowsMoved d e = Rows Moved d.store.platform_posts e.store.platform_posts

RowsMoved-refl : (d : Desk) → RowsMoved d d
RowsMoved-refl d = Rows-refl Moved Moved-refl d.store.platform_posts

-- Moves one after the other.
abbrev pub RowsDecided : Desk → Desk → Type 0
RowsDecided d e = Rows Decided d.store.platform_posts e.store.platform_posts

pub RowsDecided-refl : (d : Desk) → RowsDecided d d
RowsDecided-refl d = Rows-refl Decided Decided-refl d.store.platform_posts

hop-Run : (s t : Status) → (s ≡ pending_review) × (t ≡ pending_client) → Run anywhere s t
unfolding can_transition is
hop-Run s t (a, b) =
    subst (λ x. Run anywhere x t) (sym a)
      (subst (Run anywhere pending_review) (sym b)
        (step {t = approved} (step here refl refl) refl refl))

Moved-Decided : (q r : PlatformPost) → Moved q r → Decided q r
Moved-Decided q r m = record { same = m.same; run = run_of m.move; kept = m.kept }
  where
    run_of : IsMove q.status r.status → Run anywhere q.status r.status
    run_of (inl e) = subst (Run anywhere q.status) (sym e) here
    run_of (inr (inl c)) = step here c refl
    run_of (inr (inr h)) = hop-Run q.status r.status h

update-Moved :
    (p : PlatformPost → Bool) (f : PlatformPost → PlatformPost) (rows : List PlatformPost)
    → ((q : PlatformPost) → Moved q (f q))
    → Rows Moved rows (update_where p f rows)
update-Moved p f rows h =
    update_where-Rows Moved p f Moved-refl rows
      (All-of (λ q. p q ≡ true → Moved q (f q)) (λ q _. h q) rows)

decide-RowsMoved :
    (now : ℕ) (target : Target) (eligible : List Status) (goal : Status) (user : ℕ)
    (action : ActionType) (comment : String) (d : Desk)
    → is_goal goal ≡ true
    → RowsMoved d (decide now target eligible goal user action comment d).1
unfolding decide
decide-RowsMoved now target eligible goal user action comment d g =
    elim (Bool-cases (is_empty (moved_rows target eligible goal d.store.platform_posts))) [
      | inl e ↦ rw e (RowsMoved-refl d)
      | inr e ↦ rw e (
          unfold move_all in
          update-Moved (is_target target eligible) (transitioned now goal) d.store.platform_posts
            (λ q. transitioned-Moved now goal q g))
    ]

and_then-RowsMoved :
    (d : Desk) (r : Bool × Desk) (f : Desk → Desk)
    → ((e : Desk) → (f e).store ≡ e.store)
    → RowsMoved d r.1
    → RowsMoved d (and_then r f).1
and_then-RowsMoved d (false, e) f k h = h
and_then-RowsMoved d (true, e) f k h =
    subst (λ s. Rows Moved d.store.platform_posts s.platform_posts) (sym (k e)) h

approve_post-RowsMoved :
    (now : ℕ) (mode : ApprovalWorkflowMode) (target : Target) (user : ℕ)
    (members : List WorkspaceMembership) (comment : String) (d : Desk)
    → RowsMoved d (approve_post now mode target user members comment d).1
unfolding approve_post
approve_post-RowsMoved now mode target user members comment d =
    let rows = d.store.platform_posts in
    let two_stage = is_two_stage mode in
    let after =
      update-Moved (is_target target approvable) (approve_row now two_stage) rows
        (approve_row-Moved now two_stage) in
    elim (Bool-cases (is_empty (moved_rows target approvable approved rows))) [
      | inl e ↦ rw e (RowsMoved-refl d)
      | inr e ↦
          elim (Bool-cases (any (advances two_stage) (filter (is_target target approvable) rows))) [
            | inl c ↦ rw (e, c) after
            | inr c ↦ rw (e, c) after
          ]
    ]

pub approve_post-RowsDecided :
    (now : ℕ) (mode : ApprovalWorkflowMode) (target : Target) (user : ℕ)
    (members : List WorkspaceMembership) (comment : String) (d : Desk)
    → RowsDecided d (approve_post now mode target user members comment d).1
approve_post-RowsDecided now mode target user members comment d =
    Rows-map Moved Decided Moved-Decided _ _
      (approve_post-RowsMoved now mode target user members comment d)

-- Every decision of the module, with its arguments.
pub data Decision : Type 0 where
  submit resume resubmit : Decision
  approve changes reject hold : String → Decision

-- The desk after a call: a call that raises leaves it alone.
abbrev pub desk_after : Desk → Result ApprovalError (Bool × Desk) → Desk
desk_after d (ok r) = r.1
desk_after d (err _) = d

unfoldable pub run_decision :
    ℕ → ApprovalWorkflowMode → Target → ℕ → List WorkspaceMembership → Decision → Desk → Desk
run_decision now mode target user members submit d = (submit_for_review now target user members d).1
run_decision now mode target user members resume d = (resume_hold now target user d).1
run_decision now mode target user members resubmit d = (resubmit_post now target user members d).1
run_decision now mode target user members (approve c) d =
    (approve_post now mode target user members c d).1
run_decision now mode target user members (changes c) d =
    desk_after d (request_changes now target user c d)
run_decision now mode target user members (reject c) d =
    desk_after d (reject_post now target user c d)
run_decision now mode target user members (hold c) d =
    desk_after d (request_hold now target user members c d)

with_comment-RowsMoved :
    (blank : Bool) (d : Desk) (r : Bool × Desk)
    → RowsMoved d r.1
    → RowsMoved d (desk_after d (raise_if blank comment_required >> ok r))
with_comment-RowsMoved true d r h = RowsMoved-refl d
with_comment-RowsMoved false d r h = h

-- Whatever is decided, by whom and on which target, no channel appears or vanishes; each keeps its
-- content and times; its status stays, follows one edge of the state machine, or hops from
-- pending_review to pending_client; and a channel that is scheduled, publishing, published or failed
-- is left exactly as it was.
pub run_decision-Moved :
    (now : ℕ) (mode : ApprovalWorkflowMode) (target : Target) (user : ℕ)
    (members : List WorkspaceMembership) (what : Decision) (d : Desk)
    → Rows Moved d.store.platform_posts
        (run_decision now mode target user members what d).store.platform_posts
unfolding run_decision submit_for_review resubmit_post resume_hold request_changes reject_post
    request_hold
run_decision-Moved now mode target user members submit d =
    and_then-RowsMoved d _ _ (λ e. refl)
      (decide-RowsMoved now target _ pending_review user _ "" d refl)
run_decision-Moved now mode target user members resume d =
    decide-RowsMoved now target _ approved user _ "Hold lifted." d refl
run_decision-Moved now mode target user members resubmit d =
    and_then-RowsMoved d _ _ (λ e. refl)
      (decide-RowsMoved now target _ pending_review user _ "" d refl)
run_decision-Moved now mode target user members (approve c) d =
    approve_post-RowsMoved now mode target user members c d
run_decision-Moved now mode target user members (changes c) d =
    with_comment-RowsMoved (is_blank c) d _ (
      and_then-RowsMoved d _ _ (λ e. refl)
        (decide-RowsMoved now target _ changes_requested user _ c d refl))
run_decision-Moved now mode target user members (reject c) d =
    with_comment-RowsMoved (is_blank c) d _ (
      and_then-RowsMoved d _ _ (λ e. refl) (decide-RowsMoved now target _ rejected user _ c d refl))
run_decision-Moved now mode target user members (hold c) d =
    with_comment-RowsMoved (is_blank c) d _
      (and_then-RowsMoved d _ _ (λ e. refl) (decide-RowsMoved now target _ on_hold user _ c d refl))

pub run_decision-Decided :
    (now : ℕ) (mode : ApprovalWorkflowMode) (target : Target) (user : ℕ)
    (members : List WorkspaceMembership) (what : Decision) (d : Desk)
    → Rows Decided d.store.platform_posts
        (run_decision now mode target user members what d).store.platform_posts
run_decision-Decided now mode target user members what d =
    Rows-map Moved Decided Moved-Decided _ _
      (run_decision-Moved now mode target user members what d)
