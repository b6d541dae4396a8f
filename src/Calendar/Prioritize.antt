-- ===== src/Calendar/Prioritize.antt =====
-- brightbean-studio/apps/calendar/services.py: putting a post into the first slot of a queue, and
-- the entries that stand in its way one slot later.
pub mod Ladder
pub mod Laws
pub mod Movers
pub mod Placing
pub mod Fuel
mod Examples
use bright_bean_paysys.Common.{
  ℕ, zero, suc, ◌+◌, ◌-◌, Bool, true, false, not, Option, none, some, List, [], ◌∷◌, ◌++◌, map,
  ◌==◌, ◌&&◌, leb, if◌then◌else◌, filter, length, Result, ok, err,
}
use bright_bean_paysys.Common.Sorting.{order_by}
use bright_bean_paysys.Store.{PlatformPost, Queue, QueueEntry, Store}
use bright_bean_paysys.Calendar.Slots.{
  Zone, PostingSlot, is_protected, is_after, mem, horizon, next_slot_datetimes, occupied_datetimes,
  next_available_slot,
}
use bright_bean_paysys.Calendar.Queues.{
  QueueError, queue_full, platform_post_for, own_id, ensure_entry, write_slot, book,
  add_post_next_available,
}
use bright_bean_paysys.Calendar.Reorder.{Slotted, with_time, write_slots}

-- One round of the first loop: the entry with its channel, unless its time is none, past or history.
abbrev pub with_movable : ℕ → QueueEntry → Option PlatformPost → List Slotted → List Slotted
with_movable now e none rest = rest
with_movable now e (some p) rest =
    if is_protected p
    then rest
    else if is_after now p.scheduled_at
    then with_time e p p.scheduled_at rest
    else rest

unfoldable pub movable_of : ℕ → Queue → Store → List QueueEntry → List Slotted
unfolding platform_post_for is_protected
movable_of now queue s [] = []
movable_of now queue s (e ∷ es) =
    with_movable now e (platform_post_for e.post_id queue.social_account_id s)
      (movable_of now queue s es)

-- `queue.entries.exclude(post=post)`, in the order of their positions
unfoldable pub movable_entries : ℕ → ℕ → Queue → Store → List Slotted
unfolding movable_of order_by
movable_entries now post_id queue s = movable_of now queue s (
    order_by (λ e. e.position)
      (filter (λ e. e.queue.id == queue.id && not (e.post_id == post_id)) s.queue_entries))

-- `index_of.get(t)`: of two equal slots the later one; `i` is the index of the first.
abbrev pub later_index : Option ℕ → Bool → ℕ → Option ℕ
later_index (some j) _ i = some j
later_index none here i = if here then some i else none

unfoldable pub index_from : ℕ → ℕ → List ℕ → Option ℕ
index_from t i [] = none
index_from t i (u ∷ us) = later_index (index_from t (suc i) us) (u == t) i

-- An entry that moves, with the index of its slot.
pub record Mover : Type 0 where
  pub index : ℕ
  pub who : Slotted

abbrev pub with_index : Slotted → Option ℕ → List Mover → List Mover
with_index x none rest = rest
with_index x (some i) rest = record { index = i; who = x } ∷ rest

unfoldable pub movers_of : List ℕ → List Slotted → List Mover
unfolding index_from
movers_of candidates [] = []
movers_of candidates (x ∷ xs) =
    with_index x (index_from x.held 0 candidates) (movers_of candidates xs)

-- `sorted(movers, key=index, reverse=True)`: an index is below the number of candidates.
unfoldable pub descending : List ℕ → List Mover → List Mover
unfolding order_by
descending candidates ms = order_by (λ m. length candidates - m.index) ms

-- `occupied - mover_old_dts`
unfoldable pub avoided : List ℕ → List Mover → List ℕ
avoided occupied ms = filter (λ t. not (mem t (map (λ m. m.who.held) ms))) occupied

-- `candidates[j]`, where `none` is past the end
abbrev pub slot_at : List ℕ → ℕ → Option ℕ
slot_at [] j = none
slot_at (t ∷ ts) zero = some t
slot_at (t ∷ ts) (suc j) = slot_at ts j

module _ (now : ℕ) (zone : Zone) (slots : List PostingSlot) where
  -- At the end of the list the candidates are read again, two more than before.
  unfoldable pub refreshed : ℕ → List ℕ → List ℕ
  unfolding next_slot_datetimes
  refreshed j candidates =
      if leb (length candidates) j then next_slot_datetimes zone slots now (j + 2) else candidates

  -- One round of `while True`, where `rest` is the next one.
  abbrev pub seek_here :
      ℕ → List ℕ → List ℕ → List ℕ → Option ℕ → Option (ℕ × ℕ × List ℕ) → Option (ℕ × ℕ × List ℕ)
  seek_here j assigned avoid candidates none rest = none
  seek_here j assigned avoid candidates (some t) rest =
      if not (mem j assigned) && not (mem t avoid) then some (j, t, candidates) else rest

  -- The loop from index `j`; it answers with the index, its slot and the candidates it has read.
  -- The index grows up to the end of the horizon, so the fuel below is enough.
  unfoldable pub seek : ℕ → ℕ → List ℕ → List ℕ → List ℕ → Option (ℕ × ℕ × List ℕ)
  unfolding refreshed
  seek zero j assigned avoid candidates = none
  seek (suc fuel) j assigned avoid candidates =
      let cs = refreshed j candidates in
      let rest = seek fuel (suc j) assigned avoid cs in
      seek_here j assigned avoid cs (slot_at cs j) rest

  abbrev pub fuel_for : ℕ
  fuel_for = suc (length (horizon zone now slots))

  abbrev pub and_slot : ℕ → Option (List ℕ) → Option (List ℕ)
  and_slot t none = none
  and_slot t (some ts) = some (t ∷ ts)

  abbrev pub and_rest : Option (ℕ × ℕ × List ℕ) → (ℕ → List ℕ → Option (List ℕ)) → Option (List ℕ)
  and_rest none rest = none
  and_rest (some (j, t, cs)) rest = and_slot t (rest j cs)

  -- The slots that the ladder gives to the movers.
  unfoldable pub ladder : List Mover → List ℕ → List ℕ → List ℕ → Option (List ℕ)
  unfolding seek
  ladder [] assigned avoid candidates = some []
  ladder (m ∷ ms) assigned avoid candidates =
      and_rest (seek fuel_for (suc m.index) assigned avoid candidates)
        (λ j cs. ladder ms (j ∷ assigned) avoid cs)

abbrev pub climb :
    ℕ
    → ℕ
    → Queue
    → Option PlatformPost
    → ℕ
    → List Slotted
    → Option (List ℕ)
    → Store
    → Result QueueError Store
climb now post_id queue pp target xs none s = err queue_full
climb now post_id queue pp target xs (some ts) s =
    ok (write_slot now post_id queue pp target (write_slots now queue xs ts s))

-- The three ends of `prioritize`, on the store with the post's entry. Nothing is written before
-- the ladder is complete that an exception would not take back.
unfoldable pub climb_ladder :
    ℕ
    → Zone
    → List PostingSlot
    → ℕ
    → Queue
    → Option PlatformPost
    → ℕ
    → List ℕ
    → List Slotted
    → List ℕ
    → Store
    → Result QueueError Store
unfolding movers_of descending avoided ladder write_slots
climb_ladder now zone slots post_id queue pp target candidates movable occupied s =
    let movers = movers_of candidates movable in
    let ms = descending candidates movers in
    climb now post_id queue pp target (map (λ m. m.who) ms)
      (ladder now zone slots ms (0 ∷ []) (avoided occupied movers) candidates) s

abbrev pub take_gap :
    ℕ → ℕ → Queue → Option PlatformPost → Option ℕ → Store → Result QueueError Store
take_gap now post_id queue pp none s = err queue_full
take_gap now post_id queue pp (some t) s = ok (write_slot now post_id queue pp t s)

unfoldable pub place_first :
    ℕ
    → Zone
    → List PostingSlot
    → ℕ
    → Queue
    → Option PlatformPost
    → List Slotted
    → List ℕ
    → Store
    → Result QueueError Store
unfolding climb_ladder write_slot next_available_slot occupied_datetimes
place_first now zone slots post_id queue pp movable [] s = err queue_full
place_first now zone slots post_id queue pp movable (target ∷ more) s =
    let account = queue.social_account_id in
    let occupied = occupied_datetimes now account (own_id pp) s in
    if not (mem target (map (λ x. x.held) movable))
    then (if mem target occupied
        then take_gap now post_id queue pp
            (next_available_slot now zone slots account (own_id pp) s) s
        else ok (write_slot now post_id queue pp target s))
    else climb_ladder now zone slots post_id queue pp target (target ∷ more) movable occupied s

-- `prioritize`
unfoldable pub prioritize :
    ℕ → ℕ → Zone → List PostingSlot → ℕ → Queue → Store → Result QueueError Store
unfolding movable_entries next_slot_datetimes place_first ensure_entry platform_post_for
prioritize now fresh zone slots post_id queue s =
    let movable = movable_entries now post_id queue s in
    place_first now zone slots post_id queue (platform_post_for post_id queue.social_account_id s)
      movable (next_slot_datetimes zone slots now (length movable + 2))
      (record s { queue_entries = ensure_entry fresh post_id queue s.queue_entries })

-- `add_to_queue`
unfoldable pub add_to_queue :
    ℕ → ℕ → Zone → List PostingSlot → Bool → ℕ → Queue → Store → Result QueueError Store
unfolding prioritize add_post_next_available
add_to_queue now fresh zone slots priority post_id queue s =
    if priority
    then prioritize now fresh zone slots post_id queue s
    else add_post_next_available now fresh zone slots post_id queue s
