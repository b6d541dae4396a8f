-- ===== src/Publisher/Holds.antt =====
-- Holds and retries in the queries of brightbean-studio/apps/publisher/engine.py.
use bright_bean_paysys.Common.{ℕ, ◌+◌, String, ◌≡◌, true, false, some, List, arith}
use bright_bean_paysys.Store.{PlatformPost, Store}
use bright_bean_paysys.Composer.Status.{scheduled}
use bright_bean_paysys.Publisher.Attempt.{Outcome, backoff_seconds}
use bright_bean_paysys.Publisher.Engine.{
  is_due, is_retry_due, is_held, publish_post_group, retry_one,
}

-- A channel on hold keeps every channel of its post from being published: the queries select none
-- of them, and a group or a retry that was selected before the hold came changes nothing.
pub is_held-blocks :
    (now : ℕ) (dispatch : PlatformPost → Outcome) (ids : List ℕ) (pp : PlatformPost) (s : Store)
    → is_held pp.post_id s.platform_posts ≡ true
    → (is_due now s pp ≡ false)
      × (is_retry_due now s pp ≡ false)
      × (publish_post_group now dispatch pp.post_id ids s ≡ s)
      × (retry_one now dispatch pp s ≡ s)
unfolding is_due is_retry_due publish_post_group retry_one
is_held-blocks now dispatch ids pp s h = (rw h (ground arith), rw h (ground arith), rw h, rw h)

-- The row that a retryable failure saves while a retry is left.
retry_row : ℕ → String → PlatformPost → PlatformPost
retry_row now error pp = record pp {
  retry_count = pp.retry_count + 1;
  next_retry_at = some (now + backoff_seconds pp.retry_count);
  status = scheduled;
  publish_error = error;
  updated_at = now;
}
