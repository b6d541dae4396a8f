-- ===== src/Publisher/Attempt.antt =====
-- brightbean-studio/apps/publisher/engine.py: one attempt to publish one channel.
use bright_bean_paysys.Common.{
  ℕ, ◌+◌, String, Bool, true, false, ◌&&◌, Option, none, some, List, [], ◌∷◌, ◌++◌, ◌==◌, ltb, leb,
  if◌then◌else◌, find, any,
}
use bright_bean_paysys.Common.Rows.{update_where}
use bright_bean_paysys.Store.{
  PlatformPost, PublishLog, RateLimitState, Store, save_platform_post, delete_entries,
}
use bright_bean_paysys.Composer.Status.{scheduled, published, failed}
use bright_bean_paysys.Composer.Services.{other_entry}

-- What a call of the platform ends in: the dict that `_dispatch_to_provider` returns, or an
-- exception with its `retryable` attribute. The platform is not part of this code.
pub data Outcome : Type 0 where
  success : String → Option ℕ → Option (ℕ × Option ℕ) → Outcome
  failure : String → Option ℕ → Outcome
  raised : String → Bool → Outcome

abbrev pub max_retries : ℕ
max_retries = 3

-- `RETRY_BACKOFF[min(retry_count, len(RETRY_BACKOFF) - 1)]`
unfoldable pub backoff_seconds : ℕ → ℕ
backoff_seconds n = if n == 0 then 60 else if n == 1 then 300 else 1800

-- `RateLimitState.is_rate_limited`; a count of 0 is the source's test `requests_remaining == 0`.
abbrev pub before : ℕ → Option ℕ → Bool
before now none = false
before now (some t) = ltb now t

abbrev pub is_zero : Option ℕ → Bool
is_zero none = false
is_zero (some n) = n == 0

unfoldable pub is_rate_limited : ℕ → RateLimitState → Bool
is_rate_limited now r = is_zero r.requests_remaining && before now r.window_resets_at

-- the rows that the two endings of a failed attempt save
unfoldable pub fail_permanently : ℕ → String → PlatformPost → PlatformPost
fail_permanently now error pp = record pp {
  status = failed;
  publish_error = error;
  updated_at = now;
}

unfoldable pub schedule_retry : ℕ → String → PlatformPost → PlatformPost
unfolding fail_permanently backoff_seconds
schedule_retry now error pp =
    if leb max_retries pp.retry_count then fail_permanently now error pp else record pp {
      retry_count = pp.retry_count + 1;
      next_retry_at = some (now + backoff_seconds pp.retry_count);
      status = scheduled;
      publish_error = error;
      updated_at = now;
    }

unfoldable pub mark_published : ℕ → String → PlatformPost → PlatformPost
mark_published now platform_post_id pp = record pp {
  platform_post_id = platform_post_id;
  status = published;
  published_at = some now;
  updated_at = now;
}

-- The row that an attempt leaves, when the account is or is not rate limited. The error
-- of a rate limit leaves out the time up to which it holds.
unfoldable pub attempted : ℕ → Bool → Outcome → PlatformPost → PlatformPost
unfolding schedule_retry fail_permanently mark_published
attempted now true _ pp = schedule_retry now "Rate limited" pp
attempted now false (success k _ _) pp = mark_published now k pp
attempted now false (failure error _) pp = schedule_retry now error pp
attempted now false (raised error true) pp = schedule_retry now error pp
attempted now false (raised error false) pp = fail_permanently now error pp

abbrev pub code_or_200 : Option ℕ → Option ℕ
code_or_200 none = some 200
code_or_200 (some c) = some c

abbrev pub attempt_log : Option ℕ → String → PlatformPost → PublishLog
attempt_log code error pp = record {
  platform_post_id = pp.id;
  attempt_number = pp.retry_count + 1;
  status_code = code;
  error_message = error;
}

-- `PublishLog.objects.create(...)`: none for an attempt that the rate limit stops.
unfoldable pub logged : Bool → Outcome → PlatformPost → List PublishLog
logged true _ pp = []
logged false (success _ code _) pp = attempt_log (code_or_200 code) "" pp ∷ []
logged false (failure error code) pp = attempt_log code error pp ∷ []
logged false (raised error _) pp = attempt_log none error pp ∷ []

-- `_update_rate_limit`: an `update_or_create` when the answer carries a count.
unfoldable pub update_rate_limit :
    ℕ → Option (ℕ × Option ℕ) → List RateLimitState → List RateLimitState
update_rate_limit account none rs = rs
update_rate_limit account (some (left, resets)) rs =
    let row : RateLimitState = record {
      social_account_id = account;
      requests_remaining = some left;
      window_resets_at = resets;
    } in
    if any (λ r. r.social_account_id == account) rs
    then update_where (λ r. r.social_account_id == account) (λ _. row) rs
    else rs ++ row ∷ []

abbrev pub limited : ℕ → Option RateLimitState → Bool
limited now none = false
limited now (some r) = is_rate_limited now r

-- What a success adds: the channel's queue entry goes, and the rate limit is noted.
unfoldable pub after_success : Bool → Outcome → PlatformPost → Store → Store
unfolding update_rate_limit
after_success false (success _ _ rate) pp s =
    let freed = delete_entries (other_entry pp.post_id pp.social_account_id) s in
    record freed { rate_limits = update_rate_limit pp.social_account_id rate freed.rate_limits }
after_success _ _ pp s = s

abbrev pub succeeded : Bool → Outcome → Bool
succeeded false (success _ _ _) = true
succeeded _ _ = false

abbrev pub is_blocked : ℕ → PlatformPost → Store → Bool
is_blocked now pp s =
    limited now (find (λ r. r.social_account_id == pp.social_account_id) s.rate_limits)

-- `_publish_platform_post`. The whole row is saved.
unfoldable pub publish_platform_post :
    ℕ → (PlatformPost → Outcome) → PlatformPost → Store → Bool × Store
unfolding is_rate_limited attempted logged after_success
publish_platform_post now dispatch pp s =
    let blocked = is_blocked now pp s in
    let outcome = dispatch pp in
    let saved = save_platform_post pp.id (λ _. attempted now blocked outcome pp) s in
    let written = record saved { publish_logs = saved.publish_logs ++ logged blocked outcome pp } in
    (succeeded blocked outcome, after_success blocked outcome pp written)
