-- ===== src/Composer/Status/Examples.antt =====
-- The aggregate and the state machine on concrete statuses.
use bright_bean_paysys.Common.{◌≡◌, refl, ◌≢◌, ◌⊎◌, true, false, [], ◌∷◌, arith}
use bright_bean_paysys.Composer.Status.{
  Status, draft, pending_review, approved, changes_requested, scheduled, published, failed,
  partially_published, on_hold, is, is_in, is_terminal, rank, can_transition, derive_post_status,
}
use bright_bean_paysys.Composer.Status.Aggregate.{SameSet}
use bright_bean_paysys.Composer.Status.Meaning.{IsLowest, derive-SameSet, derive_mixed}
use bright_bean_paysys.Composer.Status.Machine.{Run, here, step, unapproved, on_hold-Run, is_parked}

held_shows : derive_post_status (published ∷ on_hold ∷ scheduled ∷ []) ≡ partially_published
unfolding derive_post_status is rank is_terminal
held_shows = refl

failed_shows : derive_post_status (failed ∷ approved ∷ []) ≡ approved
unfolding derive_post_status is rank is_terminal
failed_shows = refl

swapped : SameSet (draft ∷ failed ∷ draft ∷ []) (failed ∷ draft ∷ [])
unfolding is
swapped s = ground arith

derive-SameSet_example :
    derive_post_status (draft ∷ failed ∷ draft ∷ []) ≡ derive_post_status (failed ∷ draft ∷ [])
derive-SameSet_example = derive-SameSet (draft ∷ failed ∷ draft ∷ []) (failed ∷ draft ∷ []) swapped

derive_mixed_example :
    (r : Status) × IsLowest (published ∷ on_hold ∷ []) r
    × (((derive_post_status (published ∷ on_hold ∷ []) ≡ r)
          × ((r ≢ on_hold) ⊎ (is_in published (published ∷ on_hold ∷ []) ≡ false)))
        ⊎ ((derive_post_status (published ∷ on_hold ∷ []) ≡ partially_published)
            × (r ≡ on_hold)
            × (is_in published (published ∷ on_hold ∷ []) ≡ true)))
unfolding is is_terminal
derive_mixed_example =
    derive_mixed published on_hold on_hold (published ∷ on_hold ∷ []) refl refl (λ h. cc) refl refl

resubmitted : Run unapproved on_hold pending_review
unfolding can_transition is
resubmitted = step {t = changes_requested} (step here refl refl) refl refl

on_hold-Run_example : is_parked pending_review ≡ true
on_hold-Run_example = on_hold-Run resubmitted
