-- ===== src/Approvals/Examples.antt =====
-- A two-stage approval of a concrete post.
use bright_bean_paysys.Common.{ℕ, List, ok, Bool, refl, ◌≡◌, none, [], ◌∷◌}
use bright_bean_paysys.Common.Rows.{Rows}
use bright_bean_paysys.Store.{required_internal_and_client}
use bright_bean_paysys.Composer.Status.{pending_review, scheduled}
use bright_bean_paysys.Approvals.Rows.{whole}
use bright_bean_paysys.Approvals.Notices.{Desk}
use bright_bean_paysys.Approvals.Laws.{Moved, approve, run_decision, run_decision-Moved}
use bright_bean_paysys.Approvals.Stages.{SignedOff, run_decision-SignedOff}
use bright_bean_paysys.Approvals.Services.{is_blank}
use bright_bean_paysys.Approvals.Bulk.{bulk_reject}
use bright_bean_paysys.Samples.{a_post, a_channel, a_store}

abbrev desk : Desk
desk = record {
  store = a_store (a_channel 4 pending_review none ∷ a_channel 5 scheduled none ∷ []);
  actions = [];
  reminders = [];
  outbox = [];
}

run_decision-Moved_example :
    Rows Moved desk.store.platform_posts
      (run_decision 20 required_internal_and_client
        (whole (a_post 1))
        6
        []
        (approve "fine")
        desk).store.platform_posts
run_decision-Moved_example =
    run_decision-Moved 20 required_internal_and_client (whole (a_post 1)) 6 [] (approve "fine") desk

run_decision-SignedOff_example :
    Rows SignedOff desk.store.platform_posts
      (run_decision 20 required_internal_and_client
        (whole (a_post 1))
        6
        []
        (approve "fine")
        desk).store.platform_posts
run_decision-SignedOff_example = run_decision-SignedOff 20 (a_post 1) 6 [] (approve "fine") desk

refused : (r : List (ℕ × Bool) × Desk) × (bulk_reject 20 (1 ∷ []) 1 6 "no" desk ≡ ok r)
unfolding bulk_reject is_blank
refused = (_, refl)
