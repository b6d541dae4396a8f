-- ===== src/Composer/Status/Machine.antt =====
-- The state machine of a PlatformPost (`VALID_TRANSITIONS` in
-- brightbean-studio/apps/composer/models.py) as a graph.
use bright_bean_paysys.Common.{subst, ◌≡◌, refl, Bool, true, false, arith}
use bright_bean_paysys.Composer.Status.{
  Status, draft, pending_review, approved, changes_requested, rejected, published, on_hold, is,
  can_transition,
}

-- A run of the machine through statuses that `allowed` accepts, after the first.
pub data Run (allowed : Status → Bool) (s : Status) : Status → Type 0 where
  here : Run allowed s s
  step :
      {t u : Status}
      → Run allowed s t
      → can_transition t u ≡ true
      → allowed u ≡ true
      → Run allowed s u

abbrev pub anywhere : Status → Bool
anywhere s = true

-- What a hold may go through without an approval and without a return to draft.
abbrev pub unapproved : Status → Bool
unapproved approved = false
unapproved draft = false
unapproved _ = true

abbrev pub is_parked : Status → Bool
is_parked on_hold = true
is_parked changes_requested = true
is_parked pending_review = true
is_parked rejected = true
is_parked _ = false

parked-step :
    (t u : Status)
    → is_parked t ≡ true
    → can_transition t u ≡ true
    → unapproved u ≡ true
    → is_parked u ≡ true
unfolding can_transition is
parked-step t u h k a = ground arith

-- A held channel gets to no status in which it is scheduled or publishes, nor back to the client,
-- without first being approved again or sent back to draft.
pub on_hold-Run : {u : Status} → Run unapproved on_hold u → is_parked u ≡ true
on_hold-Run here = refl
on_hold-Run (step {t = t} {u = u} p c a) = parked-step t u (on_hold-Run p) c a

no_step_from_published : (u : Status) → can_transition published u ≡ false
unfolding can_transition
no_step_from_published u = refl

-- Published is final.
pub published-Run : {u : Status} → Run anywhere published u → u ≡ published
published-Run here = refl
published-Run (step {t = t} {u = u} p c a) =
    ground
      (arith, subst (λ s. can_transition s u ≡ true) (published-Run p) c, no_step_from_published u)

pub Run-trans :
    {allowed : Status → Bool} {s t u : Status} → Run allowed s t → Run allowed t u → Run allowed s u
Run-trans p here = p
Run-trans p (step q c a) = step (Run-trans p q) c a
