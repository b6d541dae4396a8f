-- ===== src/Notifications/Examples.antt =====
-- A notification whose mail never gets through.
use bright_bean_paysys.Common.{
  ℕ, String, ◌≡◌, refl, true, none, some, List, [], ◌∷◌, map, All, err, ok,
}
use bright_bean_paysys.Common.Sorting.{first_rows, order_by}
use bright_bean_paysys.Notifications.Events.{
  approval_stalled, Channel, in_app, email, webhook, DeliveryStatus, delivered, failed, raised,
}
use bright_bean_paysys.Notifications.Delivery.{
  Transport, dispatch, send_on, mark_delivered, mark_failed, backoff_minutes,
}
use bright_bean_paysys.Notifications.Engine.{
  Board, notify, channels_to_dispatch, resolve_channels, is_enabled, default_channels,
  is_in_quiet_hours, is_non_critical, retry_failed_deliveries, pending_batch, retry_each,
  is_retriable,
}
use bright_bean_paysys.Notifications.Laws.{
  Event, notifies, sweeps, run_events, IsSound, run_events-IsSound,
}

abbrev no_mail : Transport
no_mail = record {
  send_mail = λ now n. err (raised "connection refused");
  http_post = λ now n url. ok 200;
  is_safe_url = λ now url. true;
}

abbrev utc : String → ℕ → ℕ
utc zone now = now

abbrev key : Channel → ℕ
key in_app = 1
key email = 2
key webhook = 3

abbrev board : Board
board = record { notifications = []; deliveries = []; preferences = []; quiet_hours = [] }

abbrev events : List (ℕ × Event)
events =
    (100, notifies key (some (record { id = 6; is_active = true })) (some approval_stalled) 1 none)
    ∷ (160, sweeps)
    ∷ (400, sweeps)
    ∷ (460, sweeps)
    ∷ []

run_events-IsSound_example : All IsSound (run_events no_mail utc events board).deliveries
run_events-IsSound_example = run_events-IsSound no_mail utc events board tt

-- The third sweep gives the mail up, and the second comes before the backoff is over.
gives_up :
    map {B = DeliveryStatus × ℕ}
      (λ d. (d.status, d.attempts))
      (run_events no_mail utc events board).deliveries
    ≡ (delivered, 1) ∷ (failed, 3) ∷ []
unfolding notify retry_failed_deliveries dispatch send_on mark_delivered mark_failed backoff_minutes
    channels_to_dispatch resolve_channels is_enabled default_channels is_in_quiet_hours
    is_non_critical pending_batch retry_each is_retriable first_rows order_by
gives_up = refl
