-- ===== src/Publisher/Examples.antt =====
-- The engine on concrete rows and answers of the platform.
use bright_bean_paysys.Common.{ℕ, ◌≡◌, refl, true, false, Bool, none, some, List, [], ◌∷◌, arith}
use bright_bean_paysys.Store.{PlatformPost, Store, children}
use bright_bean_paysys.Composer.Status.{scheduled, failed, on_hold}
use bright_bean_paysys.Publisher.Attempt.{Outcome, failure, raised, max_retries}
use bright_bean_paysys.Publisher.Engine.{
  is_due, is_retry_due, publish_groups, group_posts, retry_all, poll_and_publish,
}
use bright_bean_paysys.Publisher.Laws.{
  Bounded, attempts, attempts_exhaust, poll_and_publish-Bounded,
}
use bright_bean_paysys.Publisher.Frames.{poll_and_publish-children}
use mathlib.Core.List.Memᴰ.{head, tail}
use bright_bean_paysys.Samples.{a_channel, a_store}

abbrev late : PlatformPost
late = a_channel 4 scheduled (some 50)

abbrev timeout : PlatformPost → Outcome
timeout _ = raised "timed out" true

abbrev four_failures : List (ℕ × Bool × Outcome)
four_failures =
    (60, true, raised "" true)
    ∷ (120, false, failure "busy" none)
    ∷ (420, false, raised "" true)
    ∷ (2220, false, failure "busy" none)
    ∷ []

attempts_exhaust_example :
    ((attempts four_failures late).status ≡ failed)
    × ((attempts four_failures late).retry_count ≡ max_retries)
attempts_exhaust_example =
    attempts_exhaust four_failures late (refl, (refl, (refl, (refl, tt)))) refl (omega arith)

abbrev store : Store
store = a_store (late ∷ [])

poll_and_publish-Bounded_example : Bounded (poll_and_publish 60 timeout store)
poll_and_publish-Bounded_example = poll_and_publish-Bounded 60 timeout store (omega arith, tt)

abbrev held_store : Store
held_store = a_store (late ∷ a_channel 5 on_hold none ∷ [])

poll_and_publish-children_example :
    (children 1 (poll_and_publish 60 timeout held_store).platform_posts
      ≡ children 1 held_store.platform_posts)
    × (children 1
          (publish_groups 60 timeout
            (late ∷ [])
            (group_posts (late ∷ []))
            held_store).platform_posts
        ≡ children 1 held_store.platform_posts)
    × (children 1 (retry_all 60 timeout (late ∷ []) held_store).platform_posts
        ≡ children 1 held_store.platform_posts)
    × (is_due 60 held_store late ≡ false)
    × (is_retry_due 60 held_store late ≡ false)
poll_and_publish-children_example =
    poll_and_publish-children (λ _. 1) 60 timeout held_store (a_channel 5 on_hold none) late
      (late ∷ []) (late ∷ []) (refl, (refl, tt)) (refl, tt) (tail (head refl)) refl refl
