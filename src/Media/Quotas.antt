-- ===== src/Media/Quotas.antt =====
-- brightbean-studio/apps/media_library/quotas.py: the storage that an organization may use, and
-- uses. A key or a slug is the list of its characters; of the digits of a text only the ASCII ones
-- are read. Sizes are natural numbers.
use bright_bean_paysys.Common.{
  ℕ, ◌+◌, ◌-◌, ◌*◌, Bool, true, false, ◌&&◌, Option, none, some, List, [], ◌∷◌, ◌==◌, ltb, leb,
  filter, find, if◌then◌else◌, Result, raise_if,
}
use bright_bean_paysys.ApiKeys.Token.{Codes, same}
use bright_bean_paysys.Media.Validators.{
  MediaSettings, MediaType, Mime, UploadedFile, MediaError, quota_exceeded,
}

-- A JSON value, as far as `_override_bytes` tells values apart.
pub data JsonValue : Type 0 where
  json_bool : Bool → JsonValue
  json_int json_negative : ℕ → JsonValue
  json_text : Codes → JsonValue
  json_other : JsonValue

pub record OrgSetting : Type 0 where
  pub organization : ℕ
  pub key : Codes
  pub value : JsonValue

pub data SubscriptionStatus : Type 0 where
  provisioning finalizing active past_due canceled provisioning_failed : SubscriptionStatus

pub record IntelligenceSubscription : Type 0 where
  pub organization : ℕ
  pub status : SubscriptionStatus
  pub plan_slug : Codes

pub record LibraryAsset : Type 0 where
  pub id : ℕ
  pub organization : ℕ
  pub workspace : Option ℕ
  pub folder : Option ℕ
  pub media_type : MediaType
  pub mime_type : Option Mime
  pub file_size : ℕ
  pub uploaded_by : ℕ

-- The rows, and the objects of the storage by key.
pub record Library : Type 0 where
  pub assets : List LibraryAsset
  pub org_settings : List OrgSetting
  pub subscriptions : List IntelligenceSubscription
  pub objects : ℕ → Option UploadedFile

pub data QuotaSource : Type 0 where
  by_override by_plan by_default : QuotaSource

pub record StorageQuota : Type 0 where
  pub limit_bytes : ℕ
  pub plan_slug : Codes
  pub source : QuotaSource

-- "media.storage_quota_bytes_override"
abbrev pub override_setting_key : Codes
override_setting_key =
    b'm' ∷ b'e' ∷ b'd' ∷ b'i' ∷ b'a' ∷ b'.' ∷ b's' ∷ b't' ∷ b'o' ∷ b'r' ∷ b'a' ∷ b'g' ∷ b'e' ∷ b'_'
    ∷ b'q' ∷ b'u' ∷ b'o' ∷ b't' ∷ b'a' ∷ b'_' ∷ b'b' ∷ b'y' ∷ b't' ∷ b'e' ∷ b's' ∷ b'_' ∷ b'o'
    ∷ b'v' ∷ b'e' ∷ b'r' ∷ b'r' ∷ b'i' ∷ b'd' ∷ b'e' ∷ []

abbrev pub is_active_subscription : SubscriptionStatus → Bool
is_active_subscription active = true
is_active_subscription provisioning = false
is_active_subscription finalizing = false
is_active_subscription past_due = false
is_active_subscription canceled = false
is_active_subscription provisioning_failed = false

abbrev pub slug_of : Option IntelligenceSubscription → Codes
slug_of none = []
slug_of (some sub) = sub.plan_slug

unfoldable pub resolve_plan_slug : ℕ → Library → Codes
resolve_plan_slug org l =
    slug_of
      (find (λ sub. sub.organization == org && is_active_subscription sub.status) l.subscriptions)

-- `int(raw)`, where `raw.isdigit()`
abbrev pub is_digit : ℕ → Bool
is_digit c = leb b'0' c && leb c b'9'

unfoldable pub digits : ℕ → Codes → Option ℕ
digits n [] = some n
digits n (c ∷ cs) = let rest = digits (n * 10 + (c - b'0')) cs in if is_digit c then rest else none

abbrev pub int_of : Codes → Option ℕ
int_of [] = none
int_of (c ∷ cs) = digits 0 (c ∷ cs)

abbrev pub bytes_of : JsonValue → Option ℕ
bytes_of (json_bool b) = none
bytes_of (json_int n) = some n
bytes_of (json_negative n) = none
bytes_of (json_text raw) = int_of raw
bytes_of json_other = none

abbrev pub bytes_of_setting : Option OrgSetting → Option ℕ
bytes_of_setting none = none
bytes_of_setting (some row) = bytes_of row.value

unfoldable pub override_bytes : ℕ → Library → Option ℕ
unfolding digits same
override_bytes org l =
    bytes_of_setting
      (find (λ row. row.organization == org && same row.key override_setting_key) l.org_settings)

abbrev pub tier_of : Codes → List (Codes × ℕ) → Option ℕ
tier_of slug [] = none
tier_of slug ((name, bytes) ∷ tiers) = if same name slug then some bytes else tier_of slug tiers

-- An empty slug has no tier.
abbrev pub tier : Codes → List (Codes × ℕ) → Option ℕ
tier [] tiers = none
tier (c ∷ slug) tiers = tier_of (c ∷ slug) tiers

abbrev pub by_tier : MediaSettings → Codes → Option ℕ → StorageQuota
by_tier c slug (some bytes) = record { limit_bytes = bytes; plan_slug = slug; source = by_plan }
by_tier c slug none = record {
  limit_bytes = c.storage_quota_default;
  plan_slug = slug;
  source = by_default;
}

abbrev pub quota_of : MediaSettings → Codes → Option ℕ → StorageQuota
quota_of c slug (some bytes) = record {
  limit_bytes = bytes;
  plan_slug = slug;
  source = by_override;
}
quota_of c slug none = by_tier c slug (tier slug c.storage_quota_tiers)

unfoldable pub resolve_storage_quota : MediaSettings → ℕ → Library → StorageQuota
unfolding override_bytes resolve_plan_slug
resolve_storage_quota c org l = quota_of c (resolve_plan_slug org l) (override_bytes org l)

unfoldable pub total_size : List LibraryAsset → ℕ
total_size [] = 0
total_size (a ∷ rows) = a.file_size + total_size rows

unfoldable pub used_storage_bytes : ℕ → Library → ℕ
unfolding total_size
used_storage_bytes org l = total_size (filter (λ a. a.organization == org) l.assets)

unfoldable pub enforce_storage_quota :
    MediaSettings → ℕ → ℕ → Library → Result MediaError (Unit {0})
unfolding used_storage_bytes resolve_storage_quota
enforce_storage_quota c org incoming l =
    let limit = (resolve_storage_quota c org l).limit_bytes in
    let used = used_storage_bytes org l in
    raise_if (c.storage_quota_enabled && ltb limit (used + incoming))
      (quota_exceeded used limit incoming)
