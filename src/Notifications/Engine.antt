-- ===== src/Notifications/Engine.antt =====
-- brightbean-studio/apps/notifications/engine.py: `notify` and the sweep of retries.
use bright_bean_paysys.Common.{
  ℕ, String, ◌&&◌, ◌||◌, Bool, true, false, Option, none, some, ◌==◌, leb, ltb, List, [], ◌∷◌, ◌++◌,
  map, if◌then◌else◌, filter, find, length,
}
use bright_bean_paysys.Common.Rows.{update_where}
use bright_bean_paysys.Common.Sorting.{order_by, first_rows}
use bright_bean_paysys.Notifications.Events.{
  EventType, post_submitted, post_approved, post_changes_requested, post_rejected, post_published,
  post_failed, new_inbox_message, inbox_sla_overdue, client_approval_requested, team_member_invited,
  social_account_disconnected, report_generated, engagement_alert, comment_mention,
  approval_reminder, approval_stalled, approval_hold_requested, client_connected_accounts, Channel,
  in_app, email, webhook, DeliveryStatus, pending, Notification, NotificationPreference,
  NotificationDelivery, QuietHours,
}
use bright_bean_paysys.Notifications.Delivery.{Transport, max_retry_attempts, dispatch}

-- The tables of the application, and what it uses of `zoneinfo`: the time of day, in a named zone
-- or in UTC for an unknown name.
pub record Board : Type 0 where
  pub notifications : List Notification
  pub deliveries : List NotificationDelivery
  pub preferences : List NotificationPreference
  pub quiet_hours : List QuietHours

-- `DEFAULT_CHANNELS`, with the default of `.get`
unfoldable pub default_channels : EventType → Channel → Bool
default_channels client_approval_requested in_app = false
default_channels team_member_invited in_app = false
default_channels _ in_app = true
default_channels post_approved email = false
default_channels post_published email = false
default_channels new_inbox_message email = false
default_channels _ email = true
default_channels _ webhook = false

-- `NON_CRITICAL_EVENTS`
unfoldable pub is_non_critical : EventType → Bool
is_non_critical post_published = true
is_non_critical report_generated = true
is_non_critical engagement_alert = true
is_non_critical _ = false

abbrev pub event_index : EventType → ℕ
event_index post_submitted = 0
event_index post_approved = 1
event_index post_changes_requested = 2
event_index post_rejected = 3
event_index post_published = 4
event_index post_failed = 5
event_index new_inbox_message = 6
event_index inbox_sla_overdue = 7
event_index client_approval_requested = 8
event_index team_member_invited = 9
event_index social_account_disconnected = 10
event_index report_generated = 11
event_index engagement_alert = 12
event_index comment_mention = 13
event_index approval_reminder = 14
event_index approval_stalled = 15
event_index approval_hold_requested = 16
event_index client_connected_accounts = 17

abbrev pub is_channel : Channel → Channel → Bool
is_channel in_app in_app = true
is_channel email email = true
is_channel webhook webhook = true
is_channel _ _ = false

abbrev pub is_preference : ℕ → EventType → Channel → NotificationPreference → Bool
is_preference user event channel p =
    p.user == user && event_index p.event_type == event_index event && is_channel p.channel channel

abbrev pub preferred : Bool → Option NotificationPreference → Bool
preferred default none = default
preferred default (some p) = p.is_enabled

-- Whether `_resolve_channels` lists the channel. A user has one preference for it at most.
unfoldable pub is_enabled : List NotificationPreference → ℕ → EventType → Channel → Bool
unfolding default_channels
is_enabled prefs user event channel =
    preferred (default_channels event channel) (find (is_preference user event channel) prefs)

unfoldable pub resolve_channels : List NotificationPreference → ℕ → EventType → List Channel
unfolding is_enabled
resolve_channels prefs user event =
    filter (is_enabled prefs user event) (in_app ∷ email ∷ webhook ∷ [])

-- `start <= now <= end`, or the range over midnight
abbrev pub is_between : ℕ → ℕ → ℕ → Bool
is_between start end t =
    if leb start end then leb start t && leb t end else leb start t || leb t end

abbrev pub in_window : Bool → Option ℕ → Option ℕ → ℕ → Bool
in_window true (some start) (some end) t = is_between start end t
in_window _ _ _ t = false

abbrev pub is_quiet_row : (String → ℕ → ℕ) → ℕ → Option QuietHours → Bool
is_quiet_row local_time now none = false
is_quiet_row local_time now (some q) =
    in_window q.is_enabled q.start_time q.end_time (local_time q.timezone now)

-- `_is_in_quiet_hours`; the times are those of saved rows.
unfoldable pub is_in_quiet_hours : (String → ℕ → ℕ) → ℕ → List QuietHours → ℕ → Bool
is_in_quiet_hours local_time now rows user =
    is_quiet_row local_time now (find (λ q. q.user == user) rows)

unfoldable pub channels_to_dispatch : (String → ℕ → ℕ) → ℕ → Board → ℕ → EventType → List Channel
unfolding resolve_channels is_in_quiet_hours is_non_critical
channels_to_dispatch local_time now b user event =
    let channels = resolve_channels b.preferences user event in
    if is_in_quiet_hours local_time now b.quiet_hours user && is_non_critical event
    then filter (λ c. is_channel c in_app) channels
    else channels

pub record User : Type 0 where
  pub id : ℕ
  pub is_active : Bool

-- The row that is created and dispatched for a channel; `key` gives the keys of new rows.
abbrev pub new_delivery : (Channel → ℕ) → Notification → Channel → NotificationDelivery
new_delivery key n channel = record {
  id = key channel;
  notification = n;
  channel = channel;
  status = pending;
  error_message = none;
  delivered_at = none;
  attempts = 0;
  next_retry_at = none;
}

abbrev pub send_new :
    Transport → (String → ℕ → ℕ) → (Channel → ℕ) → ℕ → Notification → Board → Board
send_new t local_time key now n b = record b {
  notifications = b.notifications ++ n ∷ [];
  deliveries =
      b.deliveries
      ++ map (λ c. dispatch t now (new_delivery key n c))
          (channels_to_dispatch local_time now b n.user n.event_type);
}

-- `notify`: no user, or an event that is not in the list, is `none`.
unfoldable pub notify :
    Transport
    → (String → ℕ → ℕ)
    → (Channel → ℕ)
    → ℕ
    → Option User
    → Option EventType
    → ℕ
    → Option String
    → Board
    → Board
unfolding dispatch channels_to_dispatch
notify t local_time key now (some user) (some event) fresh url b =
    if user.is_active
    then send_new t local_time key now
        (record { id = fresh; user = user.id; event_type = event; webhook_url = url }) b
    else b
notify t local_time key now _ _ fresh url b = b

abbrev pub is_pending_status : DeliveryStatus → Bool
is_pending_status pending = true
is_pending_status _ = false

abbrev pub is_reached : ℕ → Option ℕ → Bool
is_reached now none = false
is_reached now (some t) = leb t now

-- The rows of the query of `retry_failed_deliveries`.
unfoldable pub is_retriable : ℕ → NotificationDelivery → Bool
is_retriable now d =
    is_pending_status d.status
    && is_reached now d.next_retry_at
    && ltb d.attempts max_retry_attempts

abbrev pub retry_time : NotificationDelivery → Option ℕ → ℕ
retry_time d none = 0
retry_time d (some t) = t

abbrev pub retry_batch_limit : ℕ
retry_batch_limit = 200

unfoldable pub pending_batch : ℕ → List NotificationDelivery → List NotificationDelivery
unfolding is_retriable
pending_batch now ds =
    first_rows retry_batch_limit
      (order_by (λ d. retry_time d d.next_retry_at) (filter (is_retriable now) ds))

unfoldable pub retry_each :
    Transport
    → ℕ
    → List NotificationDelivery
    → List NotificationDelivery
    → List NotificationDelivery
unfolding dispatch
retry_each t now [] ds = ds
retry_each t now (d ∷ batch) ds =
    retry_each t now batch (update_where (λ r. r.id == d.id) (λ _. dispatch t now d) ds)

-- `retry_failed_deliveries`, with the count that it answers
unfoldable pub retry_failed_deliveries : Transport → ℕ → Board → ℕ × Board
unfolding pending_batch retry_each
retry_failed_deliveries t now b =
    let batch = pending_batch now b.deliveries in
    (length batch, record b { deliveries = retry_each t now batch b.deliveries })
