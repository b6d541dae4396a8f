-- ===== src/Approvals/Stages.antt =====
-- The two stages of an approval (brightbean-studio/apps/approvals/services.py): in the mode that
-- asks for the client, no decision on a post gets around the client.
use bright_bean_paysys.Common.{
  ℕ, String, ◌≡◌, ◌≢◌, refl, Bool, true, false, List, [], ◌∷◌, ◌⊎◌, inl, inr, is_empty, any, filter,
  arith, Bool-cases, raise_if, ◌>>◌, ok, subst, sym, ◌∙◌,
}
use bright_bean_paysys.Common.Rows.{Rows, Rows-refl, All-of, update_where, update_where-Rows}
use bright_bean_paysys.Store.{required_internal_and_client, Post, PlatformPost}
use bright_bean_paysys.Composer.Status.{
  Status, pending_review, pending_client, approved, changes_requested, rejected, on_hold, is,
  is_iff, can_transition,
}
use bright_bean_paysys.Composer.Services.{moved}
use bright_bean_paysys.Members.Roles.{WorkspaceMembership}
use bright_bean_paysys.Approvals.Rows.{
  Target, whole, single, is_bundled, is_target, transitioned, transition_or_skip, move_all,
  moved_rows, advances, approve_row,
}
use bright_bean_paysys.Approvals.Notices.{ActionType, Desk}
use bright_bean_paysys.Approvals.Services.{
  comment_required, is_blank, decide, and_then, submit_for_review, approve_post, request_changes,
  reject_post, request_hold, resume_hold, resubmit_post, approvable,
}
use bright_bean_paysys.Approvals.Laws.{
  Decision, submit, resume, resubmit, approve, changes, reject, hold, run_decision, desk_after,
  is_goal, transitioned-cases,
}

-- A row that is approved afterwards was approved, or waited for the client, or was on hold.
pub record SignedOff (q r : PlatformPost) : Type 0 where
  pub signed :
      r.status ≡ approved
      → (q.status ≡ approved) ⊎ (q.status ≡ pending_client) ⊎ (q.status ≡ on_hold)

SignedOff-refl : (q : PlatformPost) → SignedOff q q
SignedOff-refl q = record { signed = λ h. inl h }

transitioned-SignedOff :
    (now : ℕ) (goal : Status) (q : PlatformPost)
    → is_goal goal ≡ true
    → goal ≢ approved
    → SignedOff q (transitioned now goal q)
transitioned-SignedOff now goal q g other = record {
  signed = ground (arith, transitioned-cases now goal q g);
}

only_from :
    (s : Status)
    → can_transition s approved ≡ true
    → (s ≡ pending_review) ⊎ (s ≡ pending_client) ⊎ (s ≡ on_hold)
unfolding can_transition is
only_from s h = ground arith

next_stage :
    (now : ℕ) (q : PlatformPost)
    → q.status ≡ pending_review
    → (approve_row now true q).status ≡ pending_client
unfolding approve_row advances transition_or_skip transitioned moved can_transition is
next_stage now q h = rw h refl

same_stage :
    (now : ℕ) (q : PlatformPost)
    → is q.status pending_review ≡ false
    → approve_row now true q ≡ transitioned now approved q
unfolding approve_row advances
same_stage now q h = rw h refl

client_later : pending_client ≢ approved
client_later e = cc

approve_row-SignedOff : (now : ℕ) (q : PlatformPost) → SignedOff q (approve_row now true q)
approve_row-SignedOff now q = elim (Bool-cases (is q.status pending_review)) [
  | inl e ↦ record {
    signed = λ h.
        absurd (client_later (sym (next_stage now q ((is_iff q.status pending_review).0 e)) ∙ h));
  }
  | inr e ↦ record {
    signed = rw (same_stage now q e) (
        ground (
          arith,
          transitioned-cases now approved q refl,
          only_from q.status,
          is_iff q.status pending_review,
        ));
  }
]

abbrev RowsSignedOff : Desk → Desk → Type 0
RowsSignedOff d e = Rows SignedOff d.store.platform_posts e.store.platform_posts

update-SignedOff :
    (p : PlatformPost → Bool) (f : PlatformPost → PlatformPost) (rows : List PlatformPost)
    → ((q : PlatformPost) → p q ≡ true → SignedOff q (f q))
    → Rows SignedOff rows (update_where p f rows)
update-SignedOff p f rows h =
    update_where-Rows SignedOff p f SignedOff-refl rows
      (All-of (λ q. p q ≡ true → SignedOff q (f q)) h rows)

decide-SignedOff :
    (now : ℕ) (target : Target) (eligible : List Status) (goal : Status) (user : ℕ)
    (action : ActionType) (comment : String) (d : Desk)
    → ((q : PlatformPost)
        → is_target target eligible q ≡ true
        → SignedOff q (transitioned now goal q))
    → RowsSignedOff d (decide now target eligible goal user action comment d).1
unfolding decide
decide-SignedOff now target eligible goal user action comment d h =
    elim (Bool-cases (is_empty (moved_rows target eligible goal d.store.platform_posts))) [
      | inl e ↦ rw e (Rows-refl SignedOff SignedOff-refl d.store.platform_posts)
      | inr e ↦ rw e (
          unfold move_all in
          update-SignedOff (is_target target eligible) (transitioned now goal)
            d.store.platform_posts h)
    ]

and_then-SignedOff :
    (d : Desk) (r : Bool × Desk) (f : Desk → Desk)
    → ((e : Desk) → (f e).store ≡ e.store)
    → RowsSignedOff d r.1
    → RowsSignedOff d (and_then r f).1
and_then-SignedOff d (false, e) f k h = h
and_then-SignedOff d (true, e) f k h =
    subst (λ s. Rows SignedOff d.store.platform_posts s.platform_posts) (sym (k e)) h

with_comment-SignedOff :
    (blank : Bool) (d : Desk) (r : Bool × Desk)
    → RowsSignedOff d r.1
    → RowsSignedOff d (desk_after d (raise_if blank comment_required >> ok r))
with_comment-SignedOff true d r h = Rows-refl SignedOff SignedOff-refl d.store.platform_posts
with_comment-SignedOff false d r h = h

held_target :
    (target : Target) (q : PlatformPost)
    → is_bundled target ≡ true
    → is_target target (on_hold ∷ []) q ≡ true
    → q.status ≡ on_hold
unfolding is_target
held_target (whole post) q b h = ground (arith, is_iff q.status on_hold)
held_target (single post k) q b h = cc

approve_post-SignedOff :
    (now : ℕ) (target : Target) (user : ℕ) (members : List WorkspaceMembership) (comment : String)
    (d : Desk)
    → RowsSignedOff d
        (approve_post now required_internal_and_client target user members comment d).1
unfolding approve_post
approve_post-SignedOff now target user members comment d =
    let rows = d.store.platform_posts in
    let after =
      update-SignedOff (is_target target approvable) (approve_row now true) rows
        (λ q _. approve_row-SignedOff now q) in
    elim (Bool-cases (is_empty (moved_rows target approvable approved rows))) [
      | inl e ↦ rw e (Rows-refl SignedOff SignedOff-refl rows)
      | inr e ↦
          elim (Bool-cases (any (advances true) (filter (is_target target approvable) rows))) [
            | inl c ↦ rw (e, c) after
            | inr c ↦ rw (e, c) after
          ]
    ]

bundled-SignedOff :
    (now : ℕ) (target : Target)
    → is_bundled target ≡ true
    → (user : ℕ) (members : List WorkspaceMembership) (what : Decision) (d : Desk)
    → RowsSignedOff d (run_decision now required_internal_and_client target user members what d)
unfolding run_decision submit_for_review resubmit_post resume_hold request_changes reject_post
    request_hold
bundled-SignedOff now target b user members submit d =
    and_then-SignedOff d _ _ (λ e. refl)
      (decide-SignedOff now target _ pending_review user _ "" d
        (λ q _. transitioned-SignedOff now pending_review q refl (λ e. cc)))
bundled-SignedOff now target b user members resume d =
    decide-SignedOff now target (on_hold ∷ []) approved user _ "Hold lifted." d
      (λ q t. record { signed = λ _. inr (inr (held_target target q b t)) })
bundled-SignedOff now target b user members resubmit d =
    and_then-SignedOff d _ _ (λ e. refl)
      (decide-SignedOff now target _ pending_review user _ "" d
        (λ q _. transitioned-SignedOff now pending_review q refl (λ e. cc)))
bundled-SignedOff now target b user members (approve c) d =
    approve_post-SignedOff now target user members c d
bundled-SignedOff now target b user members (changes c) d =
    with_comment-SignedOff (is_blank c) d _ (
      and_then-SignedOff d _ _ (λ e. refl)
        (decide-SignedOff now target _ changes_requested user _ c d
          (λ q _. transitioned-SignedOff now changes_requested q refl (λ e. cc))))
bundled-SignedOff now target b user members (reject c) d = with_comment-SignedOff (is_blank c) d _ (
    and_then-SignedOff d _ _ (λ e. refl)
      (decide-SignedOff now target _ rejected user _ c d
        (λ q _. transitioned-SignedOff now rejected q refl (λ e. cc))))
bundled-SignedOff now target b user members (hold c) d = with_comment-SignedOff (is_blank c) d _ (
    and_then-SignedOff d _ _ (λ e. refl)
      (decide-SignedOff now target _ on_hold user _ c d
        (λ q _. transitioned-SignedOff now on_hold q refl (λ e. cc))))

-- In the mode that asks for the client too, whatever is decided on a whole post, a channel of the
-- store that is approved afterwards was approved before, or waited for the client, or was on hold.
pub run_decision-SignedOff :
    (now : ℕ) (post : Post) (user : ℕ) (members : List WorkspaceMembership) (what : Decision)
    (d : Desk)
    → Rows SignedOff d.store.platform_posts
        (run_decision now required_internal_and_client
          (whole post)
          user
          members
          what
          d).store.platform_posts
run_decision-SignedOff now post user members what d =
    bundled-SignedOff now (whole post) refl user members what d
