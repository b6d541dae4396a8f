-- ===== src/Calendar/Prioritize/Placing.antt =====
-- `prioritize` never books a slot twice (brightbean-studio/apps/calendar/services.py).
use bright_bean_paysys.Common.{ℕ, ◌≡◌, Option, List, ◌∷◌, map, All, Result, ok}
use bright_bean_paysys.Store.{PlatformPost, Queue, QueueEntry, Store}
use bright_bean_paysys.Calendar.Slots.{Zone, PostingSlot, horizon, occupied_datetimes}
use bright_bean_paysys.Calendar.Gaps.{IsDistinct}
use bright_bean_paysys.Calendar.Queues.{QueueError, own_id}
use bright_bean_paysys.Calendar.Reorder.{Slotted}
use bright_bean_paysys.Calendar.Prioritize.{Mover, movers_of, descending}
use bright_bean_paysys.Calendar.Prioritize.Laws.{IsMover, IsPlaced}

module _ (now : ℕ) (zone : Zone) (slots : List PostingSlot)
    (d : IsDistinct (horizon zone now slots)) (post_id : ℕ) (queue : Queue)
    (entries : List QueueEntry) (pp : Option PlatformPost) (s : Store) where
  abbrev Places : Result QueueError Store → Type 0
  Places r = (s' : Store) → r ≡ ok s' → IsPlaced now post_id queue entries pp s s'

  abbrev May : Slotted → Type 0
  May = IsMover now post_id queue entries s.platform_posts

  module _ (target : ℕ) (more : List ℕ) (movable : List Slotted) (may : All May movable) where
    abbrev all_movers : List Mover
    all_movers = movers_of (target ∷ more) movable

    abbrev occupied : List ℕ
    occupied = occupied_datetimes now queue.social_account_id (own_id pp) s

    abbrev climbing : List Slotted
    climbing = map (λ m. m.who) (descending (target ∷ more) all_movers)
