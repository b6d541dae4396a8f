-- ===== src/Api/Auth/Guesses.antt =====
-- Requests that one address sends to the API with credentials that are refused (brightbean-studio/
-- apps/api/auth.py, apps/api/limits.py).
use bright_bean_paysys.Common.{
  ℕ, suc, ◌+◌, ◌≤◌, ◌<◌, min, ◌≡◌, ap, ◌∙◌, ◌↔◌, inl, inr, Bool, true, false, Option, none, some,
  is_some, arith, Bool-cases,
}
use bright_bean_paysys.ApiKeys.Token.{Codes, Digests, token_prefix, after_prefix}
use bright_bean_paysys.ApiKeys.Keys.{ApiKey, Server}
use bright_bean_paysys.ApiKeys.Verification.{verify_token}
use bright_bean_paysys.ApiKeys.Verification.Cache.{IsFresh, touch_last_used-IsFresh}
use bright_bean_paysys.ApiKeys.Verification.Verify.{verify_token-Agrees}
use bright_bean_paysys.Api.Throttle.{
  auth_fail_limit, auth_fail_window_seconds, is_failed_auth_ip_blocked, record_failed_auth,
  at_count, count-step, blocked_iff,
}
use bright_bean_paysys.Api.Auth.{
  HttpRequest, AuthSettings, Gate, Authenticated, ip_of, record_failure, verified, key_path,
  authenticate, admitted, oauth_path, resolve_oauth_actor, mcp_authenticate,
}
use bright_bean_paysys.Api.Auth.Laws.{
  IsRefused, Defence, throttled, insecure, passed, pre_auth_reject-Defence,
  mcp_authenticate-IsRefused,
}

-- A number of requests from one address, all before an instant and all refused.
pub data Guesses (h : Digests) (c : AuthSettings) (ip before : ℕ) : Gate → ℕ → Gate → Type 0 where
  done : {g : Gate} → Guesses h c ip before g 0 g
  next :
      {g t : Gate} {n : ℕ} (now : ℕ) (r : HttpRequest) (token : Codes)
      → ip_of c r ≡ ip
      → now < before
      → (mcp_authenticate h c now r token g).0 ≡ none
      → Guesses h c ip before (mcp_authenticate h c now r token g).1 n t
      → Guesses h c ip before g (suc n) t

record_failure-IsFresh :
    (now ip : ℕ) (g : Gate) → IsFresh g.server → IsFresh (record_failure now ip g).server
unfolding record_failure
record_failure-IsFresh now ip g f = f

Defence-IsFresh :
    (c : AuthSettings) (now : ℕ) (r : HttpRequest) (g : Gate) (d : Bool × Gate)
    → IsFresh g.server
    → Defence c now r g d
    → IsFresh d.1.server
Defence-IsFresh c now r g d f (throttled b) = f
Defence-IsFresh c now r g d f (insecure b) = record_failure-IsFresh now (ip_of c r) g f
Defence-IsFresh c now r g d f (passed b t) = f

verified-IsFresh :
    (now ip : ℕ) (g : Gate) (x : Option ApiKey × Server)
    → IsFresh x.1
    → IsFresh (verified now ip g x).1.server
verified-IsFresh now ip g (none, s) f = record_failure-IsFresh now ip (record g { server = s }) f
verified-IsFresh now ip g (some key, s) f = touch_last_used-IsFresh now key (some ip) s f

key_path-IsFresh :
    (h : Digests) (now ip : ℕ) (token : Codes) (d : Bool × Gate)
    → IsFresh d.1.server
    → IsFresh (key_path h now ip token d).1.server
key_path-IsFresh h now ip token (true, g) f = f
key_path-IsFresh h now ip token (false, g) f =
    verified-IsFresh now ip g (verify_token h now token g.server)
      (verify_token-Agrees h now token g.server f).fresh

admitted-IsFresh :
    (now ip : ℕ) (g : Gate) (o : Option Authenticated)
    → IsFresh g.server
    → IsFresh (admitted now ip g o).1.server
admitted-IsFresh now ip g none f = record_failure-IsFresh now ip g f
admitted-IsFresh now ip g (some a) f = f

oauth_path-IsFresh :
    (h : Digests) (now ip : ℕ) (token : Codes) (d : Bool × Gate)
    → IsFresh d.1.server
    → IsFresh (oauth_path h now ip token d).1.server
oauth_path-IsFresh h now ip token (true, g) f = f
oauth_path-IsFresh h now ip token (false, g) f =
    admitted-IsFresh now ip g (resolve_oauth_actor h now token g) f

mcp_authenticate-IsFresh :
    (h : Digests) (c : AuthSettings) (now : ℕ) (r : HttpRequest) (token : Codes) (g : Gate)
    → IsFresh g.server
    → IsFresh (mcp_authenticate h c now r token g).1.server
unfolding mcp_authenticate authenticate
mcp_authenticate-IsFresh h c now r token g f =
    let d = Defence-IsFresh c now r g _ f (pre_auth_reject-Defence c now r g) in
    elim (Bool-cases (is_some (after_prefix token_prefix token))) [
      | inl e ↦ rw e (key_path-IsFresh h now (ip_of c r) token _ d)
      | inr e ↦ rw e (oauth_path-IsFresh h now (ip_of c r) token _ d)
    ]

-- One more refusal, from a bucket with a count of at most ten.
counted :
    (c : AuthSettings) (now : ℕ) (r : HttpRequest) (g t : Gate) (ip k e : ℕ)
    → ip_of c r ≡ ip
    → now < e
    → k ≤ 10
    → g.buckets ip ≡ at_count k e
    → IsRefused c now r g t
    → t.buckets ip ≡ at_count (min (k + 1) 10) e
counted c now r g t ip k e i l m b (inl (x, same_gate)) =
    let x' : is_failed_auth_ip_blocked now (at_count k e) ≡ true = rw (i, b) at x in
    let full = ((blocked_iff k e now).0 x').1 in
    let d : k ≡ min (k + 1) 10 = omega arith in rw same_gate (b ∙ ap (λ n. at_count n e) d)
counted c now r g t ip k e i l m b (inr (x, here, others)) =
    let x' : is_failed_auth_ip_blocked now (at_count k e) ≡ false = rw (i, b) at x in
    let d : k + 1 ≡ min (k + 1) 10 = grind (arith, blocked_iff k e now) in
    let here' : t.buckets ip ≡ record_failed_auth now (at_count k e) = rw (i, b) at here in
    here' ∙ count-step k e now l ∙ ap (λ n. at_count n e) d

counted_all :
    (h : Digests) (c : AuthSettings) (ip e : ℕ) (g t : Gate) (n k : ℕ)
    → k ≤ 10
    → IsFresh g.server
    → g.buckets ip ≡ at_count k e
    → Guesses h c ip e g n t
    → t.buckets ip ≡ at_count (min (k + n) 10) e
counted_all h c ip e g t n k m f b done =
    let d : k ≡ min (k + 0) 10 = omega arith in b ∙ ap (λ n. at_count n e) d
counted_all h c ip e g t (suc n) k m f b (next now r token i l x rest) =
    let one =
      counted c now r g _ ip k e i l m b (mcp_authenticate-IsRefused h c now r token g f x) in
    let d : min (min (k + 1) 10 + n) 10 ≡ min (k + suc n) 10 = omega arith in
    counted_all h c ip e _ t n (min (k + 1) 10) (omega arith)
      (mcp_authenticate-IsFresh h c now r token g f) one rest
    ∙ ap (λ n. at_count n e) d

first_counted :
    (c : AuthSettings) (first : ℕ) (r : HttpRequest) (g t : Gate) (ip : ℕ)
    → ip_of c r ≡ ip
    → g.buckets ip ≡ none
    → IsRefused c first r g t
    → t.buckets ip ≡ at_count 1 (first + auth_fail_window_seconds)
unfolding is_failed_auth_ip_blocked record_failed_auth
first_counted c first r g t ip i b (inl (x, same_gate)) =
    let x' : is_failed_auth_ip_blocked first none ≡ true = rw (i, b) at x in cc
first_counted c first r g t ip i b (inr (x, here, others)) =
    let here' : t.buckets ip ≡ record_failed_auth first none = rw (i, b) at here in here'

-- When an address with an empty bucket and a fresh cache of keys sends refused requests, all within
-- a minute of the first, it is blocked exactly from the tenth on and until that minute is over,
-- whatever the requests were refused for.
pub Guesses-block :
    (h : Digests) (c : AuthSettings) (ip first : ℕ) (r : HttpRequest) (token : Codes) (g t : Gate)
    (n now : ℕ)
    → IsFresh g.server
    → g.buckets ip ≡ none
    → ip_of c r ≡ ip
    → (mcp_authenticate h c first r token g).0 ≡ none
    → Guesses h c ip (first + auth_fail_window_seconds) (mcp_authenticate h c first r token g).1 n t
    → (is_failed_auth_ip_blocked now (t.buckets ip) ≡ true)
      ↔ ((now < first + auth_fail_window_seconds) × (auth_fail_limit ≤ suc n))
Guesses-block h c ip first r token g t n now f b i x rest =
    let one =
      first_counted c first r g _ ip i b (mcp_authenticate-IsRefused h c first r token g f x) in
    let all_ =
      counted_all h c ip (first + auth_fail_window_seconds) _ t n 1 (omega arith)
        (mcp_authenticate-IsFresh h c first r token g f) one rest in
    let iff = blocked_iff (min (1 + n) 10) (first + auth_fail_window_seconds) now in
    rw all_ (λ d. omega (arith, iff.0 d), λ d. iff.1 (d.0, omega arith))
