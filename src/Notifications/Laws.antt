-- ===== src/Notifications/Laws.antt =====
-- What holds of every delivery of brightbean-studio/apps/notifications/engine.py.
use bright_bean_paysys.Common.{
  ℕ, String, ◌≤◌, ◌≡◌, refl, true, Option, none, some, is_some, List, [], ◌∷◌, map, arith, ◌==◌,
  leb, filter, All, All-append, Bool-cases, inl, inr, Result, ok, err,
}
use bright_bean_paysys.Common.Rows.{All-update_where}
use bright_bean_paysys.Common.Sorting.{All-order_by, All-first_rows}
use bright_bean_paysys.Notifications.Events.{
  EventType, Channel, DeliveryStatus, pending, delivered, failed, Notification,
  NotificationDelivery, DeliveryError,
}
use bright_bean_paysys.Notifications.Delivery.{
  Transport, counted, settle, mark_delivered, mark_failed, dispatch, send_on,
}
use bright_bean_paysys.Notifications.Engine.{
  Board, User, is_retriable, pending_batch, retry_each, retry_failed_deliveries, notify,
  new_delivery,
}

-- What the columns of a delivery say in each state.
abbrev pub Stands : DeliveryStatus → NotificationDelivery → Type 0
Stands delivered d = is_some d.delivered_at ≡ true
Stands failed d = (d.attempts ≡ 3) × (is_some d.error_message ≡ true)
Stands pending d = (d.attempts ≤ 2) × (is_some d.next_retry_at ≡ true)

-- One to three attempts were made; a row that waits has a time for its next one.
pub record IsSound (d : NotificationDelivery) : Type 0 where
  pub some_attempt : 1 ≤ d.attempts
  pub few_attempts : d.attempts ≤ 3
  pub stands : Stands d.status d

mark_failed-IsSound :
    (now : ℕ) (e : DeliveryError) (d : NotificationDelivery)
    → 1 ≤ d.attempts
    → d.attempts ≤ 3
    → IsSound (mark_failed now e d)
unfolding mark_failed
mark_failed-IsSound now e d l u = elim (Bool-cases (leb 3 d.attempts)) [
  | inl c ↦ rw c (record { some_attempt = l; few_attempts = u; stands = (ground arith, refl) })
  | inr c ↦ rw c (record { some_attempt = l; few_attempts = u; stands = (ground arith, refl) })
]

settle-IsSound :
    (now : ℕ) (d : NotificationDelivery) (r : Result DeliveryError (Unit {0}))
    → 1 ≤ d.attempts
    → d.attempts ≤ 3
    → IsSound (settle now d r)
unfolding mark_delivered
settle-IsSound now d (ok _) l u = record { some_attempt = l; few_attempts = u; stands = refl }
settle-IsSound now d (err e) l u = mark_failed-IsSound now e d l u

dispatch-IsSound :
    (t : Transport) (now : ℕ) (d : NotificationDelivery)
    → d.attempts ≤ 2
    → IsSound (dispatch t now d)
unfolding dispatch
dispatch-IsSound t now d u =
    settle-IsSound now (counted d) (send_on t now d.channel d.notification) (ground arith)
      (ground arith)

-- A row that the sweep may try again.
pub record IsOpen (d : NotificationDelivery) : Type 0 where
  pub left : d.attempts ≤ 2

retriable-IsOpen :
    (now : ℕ) (ds : List NotificationDelivery) → All IsOpen (filter (is_retriable now) ds)
unfolding is_retriable
retriable-IsOpen now [] = tt
retriable-IsOpen now (d ∷ ds) = elim (Bool-cases (is_retriable now d)) [
  | inl e ↦ rw e (record { left = ground arith }, retriable-IsOpen now ds)
  | inr e ↦ rw e (retriable-IsOpen now ds)
]

batch-IsOpen : (now : ℕ) (ds : List NotificationDelivery) → All IsOpen (pending_batch now ds)
unfolding pending_batch
batch-IsOpen now ds = All-first_rows IsOpen _ _ (All-order_by IsOpen _ _ (retriable-IsOpen now ds))

retry_each-IsSound :
    (t : Transport) (now : ℕ) (batch ds : List NotificationDelivery)
    → All IsOpen batch
    → All IsSound ds
    → All IsSound (retry_each t now batch ds)
unfolding retry_each
retry_each-IsSound t now [] ds o a = a
retry_each-IsSound t now (d ∷ batch) ds o a = retry_each-IsSound t now batch _ o.1 (
    All-update_where IsSound (λ r. r.id == d.id) (λ _. dispatch t now d)
      (λ r e s. dispatch-IsSound t now d o.0.left) ds a)

new-IsSound :
    (t : Transport) (now : ℕ) (key : Channel → ℕ) (n : Notification) (cs : List Channel)
    → All IsSound (map (λ c. dispatch t now (new_delivery key n c)) cs)
new-IsSound t now key n [] = tt
new-IsSound t now key n (c ∷ cs) =
    (dispatch-IsSound t now (new_delivery key n c) (ground arith), new-IsSound t now key n cs)

notify-IsSound :
    (t : Transport) (local_time : String → ℕ → ℕ) (key : Channel → ℕ) (now : ℕ) (user : Option User)
    (event : Option EventType) (fresh : ℕ) (url : Option String) (b : Board)
    → All IsSound b.deliveries
    → All IsSound (notify t local_time key now user event fresh url b).deliveries
unfolding notify
notify-IsSound t local_time key now none event fresh url b a = a
notify-IsSound t local_time key now (some user) none fresh url b a = a
notify-IsSound t local_time key now (some user) (some event) fresh url b a =
    elim (Bool-cases user.is_active) [
      | inl e ↦ rw e (All-append IsSound b.deliveries _ a (new-IsSound t now key _ _))
      | inr e ↦ rw e a
    ]

-- What happens to the application: a call of `notify`, or a sweep.
pub data Event : Type 0 where
  notifies : (Channel → ℕ) → Option User → Option EventType → ℕ → Option String → Event
  sweeps : Event

abbrev pub happen : Transport → (String → ℕ → ℕ) → ℕ → Event → Board → Board
happen t local_time now (notifies key user event fresh url) b =
    notify t local_time key now user event fresh url b
happen t local_time now sweeps b = (retry_failed_deliveries t now b).1

abbrev pub run_events : Transport → (String → ℕ → ℕ) → List (ℕ × Event) → Board → Board
run_events t local_time [] b = b
run_events t local_time ((now, e) ∷ es) b = run_events t local_time es (happen t local_time now e b)

happen-IsSound :
    (t : Transport) (local_time : String → ℕ → ℕ) (now : ℕ) (e : Event) (b : Board)
    → All IsSound b.deliveries
    → All IsSound (happen t local_time now e b).deliveries
unfolding retry_failed_deliveries
happen-IsSound t local_time now (notifies key user event fresh url) b a =
    notify-IsSound t local_time key now user event fresh url b a
happen-IsSound t local_time now sweeps b a =
    retry_each-IsSound t now _ b.deliveries (batch-IsOpen now b.deliveries) a

-- Whatever mail and HTTP answer, and in any sequence of notifications and sweeps, a delivery has
-- one to three attempts; it is delivered, with a time, or has failed, after exactly three and with
-- an error, or waits for another attempt at a time that is set.
pub run_events-IsSound :
    (t : Transport) (local_time : String → ℕ → ℕ) (es : List (ℕ × Event)) (b : Board)
    → All IsSound b.deliveries
    → All IsSound (run_events t local_time es b).deliveries
run_events-IsSound t local_time [] b a = a
run_events-IsSound t local_time ((now, e) ∷ es) b a =
    run_events-IsSound t local_time es (happen t local_time now e b)
      (happen-IsSound t local_time now e b a)
