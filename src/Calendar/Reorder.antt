-- ===== src/Calendar/Reorder.antt =====
-- brightbean-studio/apps/calendar/services.py: dragging the entries of a queue into a new order.
pub mod Dragged
pub mod Laws
use bright_bean_paysys.Common.{
  ℕ, suc, Bool, true, false, Option, none, some, List, [], ◌∷◌, map, ◌==◌, ◌&&◌, if◌then◌else◌,
  find,
}
use bright_bean_paysys.Common.Rows.{update_where}
use bright_bean_paysys.Common.Sorting.{order_by}
use bright_bean_paysys.Store.{PlatformPost, Queue, QueueEntry, Store}
use bright_bean_paysys.Calendar.Slots.{is_protected}
use bright_bean_paysys.Calendar.Queues.{platform_post_for, is_history, write_slot}

-- An entry with the channel of its post.
abbrev pub Placed : Type 0
Placed = QueueEntry × Option PlatformPost

-- One round of the first loop: an entry that is missing or history is left out.
abbrev pub with_channel : Queue → Store → Option QueueEntry → List Placed → List Placed
with_channel queue s none rest = rest
with_channel queue s (some e) rest =
    let p = platform_post_for e.post_id queue.social_account_id s in
    if is_history p then rest else (e, p) ∷ rest

unfoldable pub ordered_entries : Queue → Store → List ℕ → List Placed
unfolding platform_post_for is_protected
ordered_entries queue s [] = []
ordered_entries queue s (eid ∷ ids) =
    with_channel queue s (find (λ e. e.queue.id == queue.id && e.id == eid) s.queue_entries)
      (ordered_entries queue s ids)

-- An entry that holds a slot, with its channel and the time.
pub record Slotted : Type 0 where
  pub entry : QueueEntry
  pub channel : PlatformPost
  pub held : ℕ

abbrev pub with_time : QueueEntry → PlatformPost → Option ℕ → List Slotted → List Slotted
with_time e p none rest = rest
with_time e p (some t) rest = record { entry = e; channel = p; held = t } ∷ rest

unfoldable pub slotted_entries : List Placed → List Slotted
slotted_entries [] = []
slotted_entries ((e, none) ∷ ps) = slotted_entries ps
slotted_entries ((e, some p) ∷ ps) = with_time e p p.scheduled_at (slotted_entries ps)

-- `sorted(p.scheduled_at for _, p in slotted)`
unfoldable pub sorted_slots : List Slotted → List ℕ
unfolding order_by
sorted_slots xs = order_by (λ t. t) (map (λ x. x.held) xs)

-- The loop that writes `slots[idx]`.
unfoldable pub write_slots : ℕ → Queue → List Slotted → List ℕ → Store → Store
unfolding write_slot
write_slots now queue (x ∷ xs) (t ∷ ts) s =
    write_slots now queue xs ts (write_slot now x.entry.post_id queue (some x.channel) t s)
write_slots now queue _ _ s = s

-- The loop over the positions.
abbrev pub at_position : ℕ → QueueEntry → Store → Store
at_position idx e s = if e.position == idx then s else record s {
  queue_entries =
      update_where (λ r. r.id == e.id) (λ r. record r { position = idx }) s.queue_entries;
}

unfoldable pub write_positions : ℕ → List Placed → Store → Store
write_positions idx [] s = s
write_positions idx ((e, _) ∷ ps) s = write_positions (suc idx) ps (at_position idx e s)

-- `reorder_queue`
unfoldable pub reorder_queue : ℕ → Queue → List ℕ → Store → Store
unfolding ordered_entries slotted_entries sorted_slots write_slots write_positions
reorder_queue now queue ids s =
    let ordered = ordered_entries queue s ids in
    let slotted = slotted_entries ordered in
    write_positions 0 ordered (write_slots now queue slotted (sorted_slots slotted) s)
