-- ===== src/Api/Throttle.antt =====
-- brightbean-studio/apps/api/limits.py: the throttle on failed authentications of one address, and
-- the address that it goes by. The cache is a count with the second at which it expires.
use bright_bean_paysys.Common.{
  ℕ, ◌+◌, ◌≤◌, ◌<◌, ◌≡◌, ◌↔◌, ◌⊎◌, inl, inr, Bool, true, false, Option, none, some, List, [], ◌∷◌,
  arith, ◌==◌, ==_iff, leb, ltb, if◌then◌else◌, length, Option-cases, any,
}

abbrev pub auth_fail_limit : ℕ
auth_fail_limit = 10

abbrev pub auth_fail_window_seconds : ℕ
auth_fail_window_seconds = 60

pub record Bucket : Type 0 where
  pub count : ℕ
  pub expires_at : ℕ

-- `cache.get`: an entry lives until it expires.
unfoldable pub live : ℕ → Option Bucket → Option Bucket
live now none = none
live now (some b) = if ltb now b.expires_at then some b else none

-- `is_failed_auth_ip_blocked`
abbrev pub reaches_limit : Option Bucket → Bool
reaches_limit none = false
reaches_limit (some b) = leb auth_fail_limit b.count

unfoldable pub is_failed_auth_ip_blocked : ℕ → Option Bucket → Bool
unfolding live
is_failed_auth_ip_blocked now bucket = reaches_limit (live now bucket)

-- `record_failed_auth`: `cache.add` seeds the bucket, `cache.incr` keeps its expiry.
abbrev pub bumped : ℕ → Option Bucket → Bucket
bumped now none = record { count = 1; expires_at = now + auth_fail_window_seconds }
bumped now (some b) = record b { count = b.count + 1 }

unfoldable pub record_failed_auth : ℕ → Option Bucket → Option Bucket
unfolding live
record_failed_auth now bucket = some (bumped now (live now bucket))

-- Failed attempts at the given times.
unfoldable pub record_all : List ℕ → Option Bucket → Option Bucket
record_all [] bucket = bucket
record_all (t ∷ ts) bucket = record_all ts (record_failed_auth t bucket)

abbrev pub AllBefore : ℕ → List ℕ → Type 0
AllBefore end_of [] = Unit
AllBefore end_of (t ∷ ts) = (t < end_of) × AllBefore end_of ts

abbrev pub at_count : ℕ → ℕ → Option Bucket
at_count n e = some (record { count = n; expires_at = e })

pub count-step : (n e t : ℕ) → t < e → record_failed_auth t (at_count n e) ≡ at_count (n + 1) e
unfolding record_failed_auth
count-step n e t h = ground arith

count_from :
    (n e : ℕ) (ts : List ℕ)
    → AllBefore e ts
    → record_all ts (at_count n e) ≡ at_count (n + length ts) e
unfolding record_all
count_from n e [] h = ground arith
count_from n e (t ∷ ts) h = rw (count-step n e t h.0, count_from (n + 1) e ts h.1) (ground arith)

first_failure :
    (first : ℕ) (ts : List ℕ)
    → AllBefore (first + auth_fail_window_seconds) ts
    → record_all (first ∷ ts) none ≡ at_count (1 + length ts) (first + auth_fail_window_seconds)
unfolding record_all record_failed_auth
first_failure first ts h = count_from 1 (first + auth_fail_window_seconds) ts h

pub blocked_iff :
    (n e now : ℕ)
    → (is_failed_auth_ip_blocked now (at_count n e) ≡ true) ↔ ((now < e) × (auth_fail_limit ≤ n))
unfolding is_failed_auth_ip_blocked
blocked_iff n e now = (λ h. ground arith, λ h. ground arith)

-- From an empty bucket, failures within a minute of the first block the address from the tenth on,
-- and when that minute is over it is free again, however late the last failure came.
pub record_all-blocked :
    (first : ℕ) (ts : List ℕ) (now : ℕ)
    → AllBefore (first + auth_fail_window_seconds) ts
    → let bucket = record_all (first ∷ ts) none in
      (is_failed_auth_ip_blocked now bucket ≡ true)
      ↔ ((now < first + auth_fail_window_seconds) × (auth_fail_limit ≤ length (first ∷ ts)))
record_all-blocked first ts now h =
    let iff = blocked_iff (1 + length ts) (first + auth_fail_window_seconds) now in
    rw (first_failure first ts h) (λ b. omega (arith, iff.0 b), λ b. iff.1 (omega arith))

-- `_client_ip`: an address is a number, `forwarded` the hops of X-Forwarded-For from the left, if
-- the header is there, and `remote` the peer of the socket.
unfoldable pub first_untrusted : List ℕ → List ℕ → Option ℕ
first_untrusted trusted [] = none
first_untrusted trusted (h ∷ hops) =
    if any (λ t. t == h) trusted then first_untrusted trusted hops else some h

abbrev pub or_remote : Option ℕ → ℕ → ℕ
or_remote none remote = remote
or_remote (some h) remote = h

unfoldable pub client_ip : List ℕ → ℕ → List ℕ → ℕ
unfolding first_untrusted
client_ip trusted remote hops =
    if any (λ t. t == remote) trusted
    then or_remote (first_untrusted trusted hops) remote
    else remote

abbrev pub is_trusted : List ℕ → ℕ → Bool
is_trusted trusted ip = any (λ t. t == ip) trusted

first_untrusted-lem :
    (trusted hops : List ℕ) (ip : ℕ)
    → first_untrusted trusted hops ≡ some ip
    → (is_trusted trusted ip ≡ false) × (any (λ h. h == ip) hops ≡ true)
unfolding first_untrusted
first_untrusted-lem trusted [] ip e = cc
first_untrusted-lem trusted (h ∷ hops) ip e =
    ground (arith, first_untrusted-lem trusted hops ip, ==_iff h ip)

-- A peer that is no trusted proxy is taken at its own address, whatever header it sends; through a
-- trusted proxy the address is an untrusted hop of the header, or the proxy itself.
pub client_ip_lem :
    (trusted : List ℕ) (remote : ℕ) (hops : List ℕ)
    → ((is_trusted trusted remote ≡ false) × (client_ip trusted remote hops ≡ remote))
      ⊎ ((is_trusted trusted remote ≡ true)
          × ((client_ip trusted remote hops ≡ remote)
              ⊎ ((is_trusted trusted (client_ip trusted remote hops) ≡ false)
                  × (any (λ h. h == client_ip trusted remote hops) hops ≡ true))))
unfolding client_ip
client_ip_lem trusted remote hops = elim (Option-cases (first_untrusted trusted hops)) [
  | inl e ↦ rw e (ground arith)
  | inr (ip, e) ↦ rw e (ground (arith, first_untrusted-lem trusted hops ip e))
]
