-- ===== src/Calendar/Prioritize/Examples.antt =====
-- A queue with one slot a week, in which one post is put before another, and their order is dragged.
use bright_bean_paysys.Common.{
  ℕ, ◌+◌, ◌*◌, ◌/◌, ◌≡◌, refl, true, none, some, List, [], ◌∷◌, map, Option, ok, Permᴰ,
}
use bright_bean_paysys.Common.Rows.{Rows}
use bright_bean_paysys.Common.Sorting.{IsSortedBy}
use bright_bean_paysys.Store.{Store, PlatformPost}
use bright_bean_paysys.Composer.Status.{approved, scheduled, published, is}
use bright_bean_paysys.Calendar.Slots.{PostingSlot, Zone, slots_from, horizon}
use bright_bean_paysys.Calendar.Reorder.{Slotted, reorder_queue}
use bright_bean_paysys.Calendar.Reorder.Dragged.{Dragged}
use bright_bean_paysys.Calendar.Reorder.Laws.{Reslotted, reorder_queue-Reslotted}
use bright_bean_paysys.Calendar.Prioritize.{prioritize}
use bright_bean_paysys.Samples.{a_channel, a_queue, an_entry, a_store}

-- a zone without an offset
abbrev plain : Zone
plain = record { local_date = λ t. t / 86400; instant = λ day time. day * 86400 + time }

abbrev weekly : List PostingSlot
weekly = record { social_account_id = 3; day_of_week = 0; time = 600; is_active = true } ∷ []

-- channel 4 of post 1, and channel 6 of post 2, which holds the first slot
abbrev rows : Option ℕ → List PlatformPost
rows t =
    a_channel 4 approved t
    ∷ (let c = a_channel 6 scheduled (some 87000) in record c { post_id = 2 })
    ∷ []

abbrev store : Option ℕ → Store
store t =
    let s = a_store (rows t) in
    record s {
      queue_entries =
          an_entry ∷ (let e = an_entry in record e { id = 12; post_id = 2; position = 2 }) ∷ [];
    }

first : (s' : Store) × (prioritize 100 9 plain weekly 1 a_queue (store none) ≡ ok s')
unfolding prioritize is horizon slots_from
first = (_, refl)

times : map (λ q. q.scheduled_at) first.0.platform_posts ≡ some 87000 ∷ some 691800 ∷ []
unfolding first
times = refl

-- A channel that was published already is given a slot of the future.
history :
    (s' : Store) × (prioritize 100 9 plain weekly 1 a_queue
        (a_store (a_channel 4 published (some 50) ∷ []))
      ≡ ok s')
unfolding prioritize is horizon slots_from
history = (_, refl)

history_moves : map (λ q. q.scheduled_at) history.0.platform_posts ≡ some 87000 ∷ []
unfolding history
history_moves = refl

reorder_queue-Reslotted_example :
    (xs : List Slotted) × Dragged a_queue (store (some 691800)) (8 ∷ 12 ∷ []) xs
    × (ws : List (ℕ × ℕ)) × (map {B = ℕ} (λ w. w.0) ws ≡ map (λ x. x.channel.id) xs)
    × IsSortedBy (λ t. t) (map {B = ℕ} (λ w. w.1) ws)
    × Permᴰ (map {B = ℕ} (λ w. w.1) ws) (map (λ x. x.held) xs)
    × Rows
        (Reslotted ws)
        (store (some 691800)).platform_posts
        (reorder_queue 100 a_queue (8 ∷ 12 ∷ []) (store (some 691800))).platform_posts
reorder_queue-Reslotted_example =
    reorder_queue-Reslotted 100 a_queue (8 ∷ 12 ∷ []) (store (some 691800))

dragged :
    map
      (λ q. q.scheduled_at)
      (reorder_queue 100 a_queue (8 ∷ 12 ∷ []) (store (some 691800))).platform_posts
    ≡ some 87000 ∷ some 691800 ∷ []
unfolding reorder_queue is
dragged = refl
