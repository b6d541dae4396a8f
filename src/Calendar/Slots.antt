-- ===== src/Calendar/Slots.antt =====
-- brightbean-studio/apps/calendar/services.py: the upcoming slots of a channel, the taken ones and
-- the first free one. Dates are day numbers and instants are seconds.
use bright_bean_paysys.Common.{
  ℕ, zero, suc, ◌+◌, ◌%◌, Bool, true, false, not, ◌&&◌, ◌||◌, Option, none, some, List, [], ◌∷◌,
  ◌++◌, map, ◌==◌, ltb, if◌then◌else◌, filter, length,
}
use bright_bean_paysys.Store.{PlatformPost, Store}
use bright_bean_paysys.Composer.Status.{published, publishing, is}
use bright_bean_paysys.Composer.Services.{set_values}

-- `PostingSlot`: the day of the week from Monday, 0, and a time of day in seconds.
pub record PostingSlot : Type 0 where
  pub social_account_id : ℕ
  pub day_of_week : ℕ
  pub time : ℕ
  pub is_active : Bool

-- What the code uses of `zoneinfo` for the workspace's zone: the local date of an instant, as a
-- proleptic day number, and the instant of a local date and time.
pub record Zone : Type 0 where
  pub local_date : ℕ → ℕ
  pub instant : ℕ → ℕ → ℕ

-- `date.weekday()`
abbrev pub weekday : ℕ → ℕ
weekday day = (day + 6) % 7

-- the slots of one day, in the order of their times
unfoldable pub slots_on : Zone → ℕ → ℕ → List PostingSlot → List ℕ
slots_on zone after day [] = []
slots_on zone after day (slot ∷ slots) =
    let rest = slots_on zone after day slots in
    let at = zone.instant day slot.time in
    if slot.day_of_week == weekday day && ltb after at then at ∷ rest else rest

-- the walk over `n` days
unfoldable pub slots_from : Zone → ℕ → ℕ → List PostingSlot → ℕ → List ℕ
unfolding slots_on
slots_from zone after day slots zero = []
slots_from zone after day slots (suc n) =
    slots_on zone after day slots ++ slots_from zone after (suc day) slots n

-- All slots within the 60 days: `slots` are the channel's active slots, in the order of the query.
unfoldable pub horizon : Zone → ℕ → List PostingSlot → List ℕ
horizon zone after slots = slots_from zone after (zone.local_date after) slots 60

abbrev pub take : ℕ → List ℕ → List ℕ
take zero ts = []
take (suc n) [] = []
take (suc n) (t ∷ ts) = t ∷ take n ts

-- `_next_slot_datetimes`: the walk stops at the slot that fills the count, which is never 0.
unfoldable pub next_slot_datetimes : Zone → List PostingSlot → ℕ → ℕ → List ℕ
next_slot_datetimes zone slots after count = take count (horizon zone after slots)

-- `PlatformPost.PROTECTED_STATUSES`
unfoldable pub is_protected : PlatformPost → Bool
is_protected pp = is pp.status published || is pp.status publishing

abbrev pub mem : ℕ → List ℕ → Bool
mem t [] = false
mem t (u ∷ us) = if u == t then true else mem t us

-- `set(...)` of instants
unfoldable pub distinct : List ℕ → List ℕ
distinct [] = []
distinct (t ∷ ts) = let rest = distinct ts in if mem t rest then rest else t ∷ rest

abbrev pub is_after : ℕ → Option ℕ → Bool
is_after now none = false
is_after now (some t) = ltb now t

-- The rows whose times `_occupied_datetimes` collects.
unfoldable pub occupies : ℕ → ℕ → List ℕ → PlatformPost → Bool
unfolding is_protected
occupies now account exclude q =
    q.social_account_id == account
    && is_after now q.scheduled_at
    && not (is_protected q)
    && not (mem q.id exclude)

unfoldable pub occupied_datetimes : ℕ → ℕ → List ℕ → Store → List ℕ
unfolding occupies distinct set_values
occupied_datetimes now account exclude s = distinct (
    set_values (map (λ q. q.scheduled_at) (filter (occupies now account exclude) s.platform_posts)))

unfoldable pub first_free : List ℕ → List ℕ → Option ℕ
first_free taken [] = none
first_free taken (t ∷ ts) = if mem t taken then first_free taken ts else some t

-- `_next_available_slot`
unfoldable pub next_available_slot : ℕ → Zone → List PostingSlot → ℕ → List ℕ → Store → Option ℕ
unfolding next_slot_datetimes
next_available_slot now zone slots account exclude s =
    let taken = occupied_datetimes now account exclude s in
    first_free taken (next_slot_datetimes zone slots now (suc (length taken)))
