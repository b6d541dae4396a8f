-- ===== src/Calendar/Defaults.antt =====
-- brightbean-studio/apps/calendar/services.py: the queue and the slots of a new channel.
use bright_bean_paysys.Common.{
  ℕ, ◌+◌, ◌*◌, ◌≡◌, refl, Bool, true, ◌&&◌, List, [], ◌∷◌, ◌++◌, map, arith, ◌==◌, if◌then◌else◌,
  any, Bool-cases, inl, inr,
}
use bright_bean_paysys.Store.{Queue}
use bright_bean_paysys.Calendar.Slots.{PostingSlot}

abbrev pub at_time : ℕ → ℕ → ℕ
at_time hour minute = hour * 3600 + minute * 60

-- `DEFAULT_POSTING_SLOTS`, as pairs of a day and a time
abbrev pub default_posting_slots : List (ℕ × ℕ)
default_posting_slots =
    (0, at_time 9 24)
    ∷ (0, at_time 10 10)
    ∷ (0, at_time 11 26)
    ∷ (0, at_time 12 42)
    ∷ (1, at_time 9 55)
    ∷ (1, at_time 10 41)
    ∷ (1, at_time 11 57)
    ∷ (1, at_time 12 13)
    ∷ (2, at_time 9 30)
    ∷ (2, at_time 10 17)
    ∷ (2, at_time 11 32)
    ∷ (2, at_time 12 41)
    ∷ (3, at_time 9 38)
    ∷ (3, at_time 10 52)
    ∷ []

abbrev pub default_slot : ℕ → ℕ × ℕ → PostingSlot
default_slot account (day, time) = record {
  social_account_id = account;
  day_of_week = day;
  time = time;
  is_active = true;
}

abbrev pub is_same_slot : PostingSlot → PostingSlot → Bool
is_same_slot a b =
    a.social_account_id == b.social_account_id && a.day_of_week == b.day_of_week && a.time == b.time

-- `bulk_create(..., ignore_conflicts=True)`: a channel has a slot at one day and time once.
unfoldable pub add_slots : List PostingSlot → List PostingSlot → List PostingSlot
add_slots [] slots = slots
add_slots (x ∷ xs) slots =
    add_slots xs (if any (is_same_slot x) slots then slots else slots ++ x ∷ [])

-- The function, for the slots `xs`; `fresh` is the key of the new queue.
unfoldable pub with_queue :
    ℕ → ℕ → List PostingSlot → List Queue × List PostingSlot → List Queue × List PostingSlot
unfolding add_slots
with_queue fresh account xs (queues, slots) =
    if any (λ q. q.social_account_id == account) queues
    then (queues, slots)
    else (queues ++ record { id = fresh; social_account_id = account } ∷ [], add_slots xs slots)

-- `create_default_queue_and_slots`
unfoldable pub create_default_queue_and_slots :
    ℕ → ℕ → List Queue × List PostingSlot → List Queue × List PostingSlot
unfolding with_queue
create_default_queue_and_slots fresh account =
    with_queue fresh account (map (default_slot account) default_posting_slots)

any_queue :
    (fresh account : ℕ) (queues : List Queue)
    → any
        (λ q. q.social_account_id == account)
        (queues ++ record { id = fresh; social_account_id = account } ∷ [])
      ≡ true
any_queue fresh account [] = ground arith
any_queue fresh account (q ∷ queues) = ground (arith, any_queue fresh account queues)

with_queue_idem :
    (fresh other account : ℕ) (xs ys : List PostingSlot) (queues : List Queue)
    (slots : List PostingSlot)
    → with_queue other account ys (with_queue fresh account xs (queues, slots))
      ≡ with_queue fresh account xs (queues, slots)
unfolding with_queue
with_queue_idem fresh other account xs ys queues slots =
    elim (Bool-cases (any (λ q. q.social_account_id == account) queues)) [
      | inl e ↦ rw (e, e) refl
      | inr e ↦ rw (e, any_queue fresh account queues) refl
    ]

-- Connecting a channel again adds nothing.
pub create_default_queue_and_slots_idem :
    (fresh other account : ℕ) (queues : List Queue) (slots : List PostingSlot)
    → create_default_queue_and_slots other account
        (create_default_queue_and_slots fresh account (queues, slots))
      ≡ create_default_queue_and_slots fresh account (queues, slots)
unfolding create_default_queue_and_slots
create_default_queue_and_slots_idem fresh other account queues slots =
    with_queue_idem fresh other account (map (default_slot account) default_posting_slots)
      (map (default_slot account) default_posting_slots) queues slots
