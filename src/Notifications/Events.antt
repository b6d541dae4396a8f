-- ===== src/Notifications/Events.antt =====
-- brightbean-studio/apps/notifications/models.py: events, channels and the rows.
use bright_bean_paysys.Common.{ℕ, String, Bool, Option}

pub data EventType : Type 0 where
  post_submitted post_approved post_changes_requested post_rejected post_published post_failed :
      EventType
  new_inbox_message inbox_sla_overdue client_approval_requested team_member_invited : EventType
  social_account_disconnected report_generated engagement_alert comment_mention : EventType
  approval_reminder approval_stalled approval_hold_requested client_connected_accounts : EventType

pub data Channel : Type 0 where
  in_app email webhook : Channel

pub data DeliveryStatus : Type 0 where
  pending delivered failed : DeliveryStatus

-- The title, the body and the other data are left out.
pub record Notification : Type 0 where
  pub id : ℕ
  pub user : ℕ
  pub event_type : EventType
  pub webhook_url : Option String

pub record NotificationPreference : Type 0 where
  pub user : ℕ
  pub event_type : EventType
  pub channel : Channel
  pub is_enabled : Bool

-- The exceptions whose text is saved as the error message: those that the code raises itself, and
-- those of the libraries for mail and HTTP.
pub data DeliveryError : Type 0 where
  url_rejected : DeliveryError
  redirected http_error : ℕ → DeliveryError
  raised : String → DeliveryError

pub record NotificationDelivery : Type 0 where
  pub id : ℕ
  pub notification : Notification
  pub channel : Channel
  pub status : DeliveryStatus
  pub error_message : Option DeliveryError
  pub delivered_at : Option ℕ
  pub attempts : ℕ
  pub next_retry_at : Option ℕ

-- Times of day in seconds. `digest_mode` is read by the daily digest only.
pub record QuietHours : Type 0 where
  pub user : ℕ
  pub is_enabled : Bool
  pub start_time : Option ℕ
  pub end_time : Option ℕ
  pub timezone : String
