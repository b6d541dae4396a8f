-- ===== src/Calendar/Queues.antt =====
-- brightbean-studio/apps/calendar/services.py: putting a post into a queue's first gap, and taking
-- it out. The channel's lock makes each operation run alone, so each is a function of the store.
pub mod Laws
use bright_bean_paysys.Common.{
  ℕ, suc, ◌+◌, max, Bool, true, false, not, ◌&&◌, Option, none, some, List, [], ◌∷◌, ◌++◌, map,
  ◌==◌, if◌then◌else◌, find, filter, any, is_some, Result, ok, err,
}
use bright_bean_paysys.Common.Rows.{update_where}
use bright_bean_paysys.Store.{
  ApprovalWorkflowMode, PlatformPost, Queue, QueueEntry, Store, save_platform_post, delete_entries,
}
use bright_bean_paysys.Composer.Status.{Status, draft, can_transition}
use bright_bean_paysys.Composer.Services.{sync_post_scheduled_at, moved, persist}
use bright_bean_paysys.Calendar.Slots.{Zone, PostingSlot, is_protected, next_available_slot}

-- `QueueFullError`
pub data QueueError : Type 0 where
  queue_full : QueueError

-- `_platform_post_for`
unfoldable pub platform_post_for : ℕ → ℕ → Store → Option PlatformPost
platform_post_for post_id account s =
    find (λ q. q.post_id == post_id && q.social_account_id == account) s.platform_posts

abbrev pub is_entry : ℕ → ℕ → QueueEntry → Bool
is_entry queue_id post_id e = e.queue.id == queue_id && e.post_id == post_id

-- the greatest position in the queue, 0 for none
unfoldable pub max_position : ℕ → List QueueEntry → ℕ
max_position queue_id [] = 0
max_position queue_id (e ∷ es) =
    let rest = max_position queue_id es in
    if e.queue.id == queue_id then max e.position rest else rest

-- `_ensure_entry`; `fresh` is the key of a new row.
unfoldable pub ensure_entry : ℕ → ℕ → Queue → List QueueEntry → List QueueEntry
unfolding max_position
ensure_entry fresh post_id queue es =
    if any (is_entry queue.id post_id) es
    then es
    else es
      ++ record {
        id = fresh;
        queue = queue;
        post_id = post_id;
        position = max_position queue.id es + 1;
        assigned_slot_datetime = none;
      }
        ∷ []

abbrev pub at_slot : ℕ → ℕ → PlatformPost → PlatformPost
at_slot now slot q = record q { scheduled_at = some slot; updated_at = now }

abbrev pub assign : ℕ → ℕ → ℕ → List QueueEntry → List QueueEntry
assign queue_id post_id slot =
    update_where (is_entry queue_id post_id) (λ e. record e { assigned_slot_datetime = some slot })

-- `_write_slot`
unfoldable pub write_slot : ℕ → ℕ → Queue → Option PlatformPost → ℕ → Store → Store
unfolding sync_post_scheduled_at
write_slot now post_id queue none slot s = record s {
  queue_entries = assign queue.id post_id slot s.queue_entries;
}
write_slot now post_id queue (some pp) slot s =
    let saved = save_platform_post pp.id (at_slot now slot) s in
    sync_post_scheduled_at now pp.post_id
      (record saved { queue_entries = assign queue.id post_id slot s.queue_entries })

abbrev pub is_history : Option PlatformPost → Bool
is_history none = false
is_history (some pp) = is_protected pp

abbrev pub own_id : Option PlatformPost → List ℕ
own_id none = []
own_id (some pp) = pp.id ∷ []

-- the writes once a slot is found
unfoldable pub book :
    ℕ → ℕ → ℕ → Queue → Option PlatformPost → Option ℕ → Store → Result QueueError Store
book now fresh post_id queue pp none s = err queue_full
book now fresh post_id queue pp (some slot) s = ok (
    write_slot now post_id queue pp slot
      (record s { queue_entries = ensure_entry fresh post_id queue s.queue_entries }))

-- `add_post_next_available`, and so `reslot_to_next_available`: `slots` are the channel's active
-- slots. A published or publishing channel is left alone.
unfoldable pub add_post_next_available :
    ℕ → ℕ → Zone → List PostingSlot → ℕ → Queue → Store → Result QueueError Store
add_post_next_available now fresh zone slots post_id queue s =
    let pp = platform_post_for post_id queue.social_account_id s in
    if is_history pp
    then ok s
    else book now fresh post_id queue pp
        (next_available_slot now zone slots queue.social_account_id (own_id pp) s) s

abbrev pub cleared : ℕ → Option PlatformPost → Store → Store
cleared now none s = s
cleared now (some pp) s =
    if not (is_protected pp) && can_transition pp.status draft
    then persist now draft none (moved now draft pp) s
    else s

-- `remove_from_queue`
unfoldable pub remove_from_queue : ℕ → QueueEntry → Store → Store
remove_from_queue now entry s =
    let pp = platform_post_for entry.post_id entry.queue.social_account_id s in
    let gone = delete_entries (λ e. not (e.id == entry.id)) (cleared now pp s) in
    sync_post_scheduled_at now entry.post_id gone
