-- ===== src/Api/Quota.antt =====
-- brightbean-studio/apps/api/limits.py: the daily caps on posts for one channel. An instant of this
-- file is a number of microseconds, as the database keeps it.
use text.Mathlib.Text.{◌==◌ as str_eq}
use bright_bean_paysys.Common.{
  ℕ, ◌+◌, ◌-◌, ◌*◌, ◌/◌, ◌≤◌, ◌<◌, ◌≡◌, ◌↔◌, String, Bool, true, ◌&&◌, ◌||◌, Option, none, some,
  List, [], ◌∷◌, map, arith, ◌==◌, leb, max, if◌then◌else◌, filter, length, Result, ok, err,
}
use bright_bean_paysys.Store.{SocialAccount, PlatformPost, Store}
use bright_bean_paysys.Composer.Status.{Status, scheduled, publishing, published, failed, is}
use bright_bean_paysys.Composer.Services.{earliest}

-- `PLATFORM_DAILY_POST_LIMIT`, with `_DEFAULT_FALLBACK` for a platform that it lacks
unfoldable pub platform_daily_post_limit : String → ℕ
platform_daily_post_limit p =
    if str_eq p "linkedin_personal" || str_eq p "linkedin_company"
    then 100
    else if str_eq p "facebook"
    then 200
    else if str_eq p "instagram" || str_eq p "instagram_login"
    then 25
    else if str_eq p "tiktok"
    then 15
    else if str_eq p "youtube"
    then 50
    else if str_eq p "pinterest"
    then 100
    else if str_eq p "threads"
    then 250
    else if str_eq p "mastodon" || str_eq p "bluesky"
    then 200
    else if str_eq p "google_business"
    then 50
    else 50

abbrev pub override_or : Option ℕ → ℕ → ℕ
override_or none n = n
override_or (some m) n = m

unfoldable pub resolve_platform_limit : SocialAccount → ℕ
resolve_platform_limit account =
    override_or account.daily_post_limit_override (platform_daily_post_limit account.platform)

-- `QUOTA_CONSUMING_STATUSES`
unfoldable pub consumes_quota : Status → Bool
consumes_quota s = is s scheduled || is s publishing || is s published || is s failed

abbrev pub second : ℕ
second = 1000000

-- 24 hours
abbrev pub day : ℕ
day = 86400 * second

-- The rows of the window: `updated_at >= now - 24h`.
unfoldable pub is_recent : ℕ → ℕ → PlatformPost → Bool
is_recent now account q =
    q.social_account_id == account && leb now (q.updated_at + day) && consumes_quota q.status

unfoldable pub recent_times : ℕ → ℕ → Store → List ℕ
recent_times now account s =
    map (λ q. q.updated_at) (filter (is_recent now account) s.platform_posts)

unfoldable pub count_recent_creations : ℕ → ℕ → Store → ℕ
count_recent_creations now account s = length (recent_times now account s)

-- The whole seconds of `oldest + 24h - now` when there is an oldest row, else 60, and 1 at least
unfoldable pub retry_after : ℕ → List ℕ → ℕ
retry_after now [] = 60
retry_after now (t ∷ ts) = max ((earliest t ts + day - now) / second) 1

-- The fields of the message of the 429 answer.
pub record RateLimited : Type 0 where
  pub limit : ℕ
  pub remaining : ℕ
  pub retry_after_seconds : ℕ

unfoldable pub check_platform_quota : ℕ → SocialAccount → Store → Result RateLimited (Unit {0})
check_platform_quota now account s =
    let limit = resolve_platform_limit account in
    if leb limit (count_recent_creations now account.id s)
    then err (record {
      limit = limit;
      remaining = 0;
      retry_after_seconds = retry_after now (recent_times now account.id s);
    })
    else ok tt

-- An account at its cap is refused, below it is let through; a cap of 0 refuses every call.
pub check_platform_quota_iff :
    (now : ℕ) (account : SocialAccount) (s : Store)
    → (check_platform_quota now account s ≡ ok tt)
      ↔ (count_recent_creations now account.id s < resolve_platform_limit account)
unfolding check_platform_quota
check_platform_quota_iff now account s = (λ h. ground arith, λ h. ground arith)

-- The advertised wait is a second at least.
pub retry_after-pos : (now : ℕ) (ts : List ℕ) → 1 ≤ retry_after now ts
unfolding retry_after
retry_after-pos now [] = omega arith
retry_after-pos now (t ∷ ts) = omega arith

AllRecent : ℕ → ℕ → ℕ → List PlatformPost → Type 0
AllRecent now account m [] = Unit
AllRecent now account m (q ∷ qs) =
    (is_recent now account q ≡ true → m ≤ q.updated_at) × AllRecent now account m qs
