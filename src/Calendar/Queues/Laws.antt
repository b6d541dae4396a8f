-- ===== src/Calendar/Queues/Laws.antt =====
-- What `add_post_next_available` and `remove_from_queue` do
-- (brightbean-studio/apps/calendar/services.py).
use bright_bean_paysys.Common.{ℕ, ◌≡◌, ◌≢◌, sym, ◌∙◌, true, false, some, List, Memᴰ}
use bright_bean_paysys.Common.Rows.{Rows}
use bright_bean_paysys.Store.{PlatformPost, Queue, Store}
use bright_bean_paysys.Calendar.Slots.{
  Zone, PostingSlot, mem, occupied_datetimes, next_available_slot, horizon,
}
use bright_bean_paysys.Calendar.Occupied.{Occupant, occupied_iff}
use bright_bean_paysys.Calendar.Gaps.{IsDistinct, next_available_slot-eq, first_free-mem}
use bright_bean_paysys.Calendar.Queues.{write_slot, ensure_entry}

-- The row with key `k` waits at `slot`, and every other row is as it was.
abbrev pub Booked : ℕ → ℕ → PlatformPost → PlatformPost → Type 0
Booked k slot q r =
    (q.id ≡ k → (r.scheduled_at ≡ some slot) × (r.status ≡ q.status)) × (q.id ≢ k → r ≡ q)

booked : ℕ → ℕ → ℕ → Queue → PlatformPost → ℕ → Store → Store
booked now fresh post_id queue pp slot s =
    write_slot now post_id queue (some pp) slot
      (record s { queue_entries = ensure_entry fresh post_id queue s.queue_entries })

pub free_slot :
    (now : ℕ) (zone : Zone) (slots : List PostingSlot) (account : ℕ) (exclude : List ℕ) (s : Store)
    (slot : ℕ)
    → IsDistinct (horizon zone now slots)
    → next_available_slot now zone slots account exclude s ≡ some slot
    → (mem slot (occupied_datetimes now account exclude s) ≡ false)
      × (mem slot (horizon zone now slots) ≡ true)
free_slot now zone slots account exclude s slot d e =
    first_free-mem _ _ slot (sym (next_available_slot-eq now zone slots account exclude s d) ∙ e)

pub free_of :
    (now account : ℕ) (exclude : List ℕ) (t : ℕ) (s : Store)
    → mem t (occupied_datetimes now account exclude s) ≡ false
    → (q : PlatformPost) → Memᴰ q s.platform_posts
    → Occupant now account exclude t q
    → ⊥
free_of now account exclude t s e q m o =
    let taken = (occupied_iff now account exclude t s).1 (q, m, o) in cc
