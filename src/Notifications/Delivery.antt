-- ===== src/Notifications/Delivery.antt =====
-- brightbean-studio/apps/notifications/engine.py, one attempt: `_dispatch` and the three channels.
-- Mail, HTTP and the check of an address are parameters, whose answers may differ from time to time.
use bright_bean_paysys.Common.{
  ℕ, String, ◌+◌, ◌-◌, ◌*◌, ◌&&◌, Bool, not, Option, none, some, leb, ltb, min, List, [], ◌∷◌,
  if◌then◌else◌, Result, ok, err, ◌>>=◌, ◌>>◌, raise_if,
}
use bright_bean_paysys.Notifications.Events.{
  Channel, in_app, email, webhook, pending, delivered, failed, Notification, DeliveryError,
  url_rejected, redirected, http_error, NotificationDelivery,
}

-- `msg.send`, `httpx.post` with the status it answers, and `is_safe_url`, at an instant.
pub record Transport : Type 0 where
  pub send_mail : ℕ → Notification → Result DeliveryError (Unit {0})
  pub http_post : ℕ → Notification → String → Result DeliveryError ℕ
  pub is_safe_url : ℕ → String → Bool

abbrev pub max_retry_attempts : ℕ
max_retry_attempts = 3

abbrev pub retry_backoff_minutes : List ℕ
retry_backoff_minutes = 1 ∷ 5 ∷ 30 ∷ []

abbrev pub backoff_at : ℕ → List ℕ → ℕ
backoff_at n [] = 0
backoff_at n (x ∷ xs) = let rest = backoff_at (n - 1) xs in if leb n 0 then x else rest

-- The backoff after so many attempts; `_dispatch` has counted the failed one.
unfoldable pub backoff_minutes : ℕ → ℕ
backoff_minutes attempts = backoff_at (min (attempts - 1) 2) retry_backoff_minutes

abbrev pub check_status : ℕ → Result DeliveryError (Unit {0})
check_status code =
    raise_if (leb 300 code && ltb code 400) (redirected code)
    >> raise_if (leb 400 code) (http_error code)

abbrev pub post_to : Transport → ℕ → Notification → Option String → Result DeliveryError (Unit {0})
post_to t now n none = ok tt
post_to t now n (some url) =
    raise_if (not (t.is_safe_url now url)) url_rejected >> (t.http_post now n url >>= check_status)

-- `_dispatch_webhook`
unfoldable pub dispatch_webhook : Transport → ℕ → Notification → Result DeliveryError (Unit {0})
dispatch_webhook t now n = post_to t now n n.webhook_url

-- The call for the channel; there is no other channel.
unfoldable pub send_on : Transport → ℕ → Channel → Notification → Result DeliveryError (Unit {0})
unfolding dispatch_webhook
send_on t now in_app n = ok tt
send_on t now email n = t.send_mail now n
send_on t now webhook n = dispatch_webhook t now n

-- The two ends of `_dispatch`, on the row with the attempt counted.
unfoldable pub mark_delivered : ℕ → NotificationDelivery → NotificationDelivery
mark_delivered now d = record d { status = delivered; delivered_at = some now }

unfoldable pub mark_failed : ℕ → DeliveryError → NotificationDelivery → NotificationDelivery
unfolding backoff_minutes
mark_failed now error d =
    if leb max_retry_attempts d.attempts
    then record d { error_message = some error; status = failed }
    else record d {
      error_message = some error;
      status = pending;
      next_retry_at = some (now + backoff_minutes d.attempts * 60);
    }

abbrev pub counted : NotificationDelivery → NotificationDelivery
counted d = record d { attempts = d.attempts + 1 }

abbrev pub settle :
    ℕ → NotificationDelivery → Result DeliveryError (Unit {0}) → NotificationDelivery
settle now d (ok _) = mark_delivered now d
settle now d (err e) = mark_failed now e d

-- `_dispatch`
unfoldable pub dispatch : Transport → ℕ → NotificationDelivery → NotificationDelivery
unfolding mark_delivered mark_failed send_on
dispatch t now d = settle now (counted d) (send_on t now d.channel d.notification)
