-- ===== src/Calendar/Examples.antt =====
-- Queueing a post on a channel with one slot a week.
use bright_bean_paysys.Common.{◌+◌, ◌*◌, ◌/◌, true, none, some, List, [], ◌∷◌}
use bright_bean_paysys.Common.Rows.{Rows}
use bright_bean_paysys.Store.{Store}
use bright_bean_paysys.Composer.Status.{approved, scheduled}
use bright_bean_paysys.Calendar.Slots.{PostingSlot, Zone}
use bright_bean_paysys.Samples.{a_channel, a_store}

-- a zone without an offset
abbrev plain : Zone
plain = record { local_date = λ t. t / 86400; instant = λ day time. day * 86400 + time }

abbrev weekly : List PostingSlot
weekly = record { social_account_id = 3; day_of_week = 0; time = 600; is_active = true } ∷ []

abbrev store : Store
store = a_store (a_channel 4 approved none ∷ a_channel 5 scheduled (some 87000) ∷ [])
