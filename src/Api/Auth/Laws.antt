-- ===== src/Api/Auth/Laws.antt =====
-- Who gets past the authentication of the API, and what a refusal leaves (brightbean-studio/apps/
-- api/auth.py).
use bright_bean_paysys.Common.{
  ℕ, ◌≡◌, ◌≢◌, refl, sym, ap, ◌∙◌, subst, ◌⊎◌, inl, inr, Bool, true, false, not, ◌&&◌, ◌||◌, Option,
  none, some, is_some, ◌==◌, ==_iff, arith, find, Bool-cases,
}
use mathlib.Core.Option.{some_inj}
use bright_bean_paysys.Members.Roles.{Permission}
use bright_bean_paysys.ApiKeys.Token.{Codes, Digests, token_prefix, after_prefix}
use bright_bean_paysys.ApiKeys.Keys.{ApiKey, Server}
use bright_bean_paysys.ApiKeys.Scope.{permissions_of}
use bright_bean_paysys.ApiKeys.Verification.{
  is_membership, verify_token, resolve_effective_permissions,
}
use bright_bean_paysys.ApiKeys.Verification.Cache.{SameAnswer, verify_uncached, IsFresh}
use bright_bean_paysys.ApiKeys.Verification.Verify.{verify_token-Agrees}
use bright_bean_paysys.Api.Auth.Oauth.{IsByOauth, for_token-IsByOauth}
use bright_bean_paysys.Api.Auth.Keys.{verify_token-memberships}
use bright_bean_paysys.Api.Throttle.{is_failed_auth_ip_blocked, record_failed_auth}
use bright_bean_paysys.Api.Auth.{
  HttpRequest, AuthSettings, Gate, key_actor, Authenticated, ip_of, record_failure, pre_auth_reject,
  key_authenticated, verified, key_path, authenticate, resolve_oauth_actor, admitted, oauth_path,
  mcp_authenticate,
}

-- A key is behind the request: the check without a cache accepts the token, and the request may do
-- only what both the key and the present role of its issuer allow.
pub record IsByKey (h : Digests) (now : ℕ) (token : Codes) (g : Gate) (a : Authenticated)
    : Type 0 where
  pub key : ApiKey
  pub actor : a.actor ≡ key_actor key
  pub workspace : a.workspace_id ≡ key.workspace.id
  pub accepted : SameAnswer (some key) (verify_uncached h now token g.server)
  pub limited :
      (p : Permission)
      → a.permissions p ≡ true
      → (key.permissions p ≡ true)
        × (permissions_of
              (find (is_membership key.issued_by key.workspace.id) g.server.memberships)
              p
            ≡ true)

pub record IsAdmitted (h : Digests) (c : AuthSettings) (now : ℕ) (r : HttpRequest) (token : Codes)
    (g : Gate) (a : Authenticated) : Type 0 where
  pub unblocked : is_failed_auth_ip_blocked now (g.buckets (ip_of c r)) ≡ false
  pub transport : (r.is_secure || c.debug) ≡ true
  pub credential : IsByKey h now token g a ⊎ IsByOauth h now token g a

-- The address is throttled and nothing changes, or the failure is counted for the address and for
-- no other.
abbrev pub IsRefused : AuthSettings → ℕ → HttpRequest → Gate → Gate → Type 0
IsRefused c now r g t =
    ((is_failed_auth_ip_blocked now (g.buckets (ip_of c r)) ≡ true) × (t ≡ g))
    ⊎ ((is_failed_auth_ip_blocked now (g.buckets (ip_of c r)) ≡ false)
        × (t.buckets (ip_of c r) ≡ record_failed_auth now (g.buckets (ip_of c r)))
        × ((k : ℕ) → k ≢ ip_of c r → t.buckets k ≡ g.buckets k))

abbrev Fits :
    Digests → AuthSettings → ℕ → HttpRequest → Codes → Gate → Option Authenticated × Gate → Type 0
Fits h c now r token g (some a, t) = IsAdmitted h c now r token g a
Fits h c now r token g (none, t) = IsRefused c now r g t

self_eq : (k : ℕ) → (k == k) ≡ true
self_eq k = (==_iff k k).1 refl

record_failure-buckets :
    (c : AuthSettings) (now : ℕ) (r : HttpRequest) (g t : Gate)
    → is_failed_auth_ip_blocked now (g.buckets (ip_of c r)) ≡ false
    → t.buckets ≡ (record_failure now (ip_of c r) g).buckets
    → IsRefused c now r g t
unfolding record_failure
record_failure-buckets c now r g t b e = inr (
  b,
  ap (λ f. f (ip_of c r)) e ∙ rw (self_eq (ip_of c r)) refl,
  λ k d. ap (λ f. f k) e ∙ grind (arith, ==_iff k (ip_of c r)),
)

-- The three ends of the defences.
pub data Defence (c : AuthSettings) (now : ℕ) (r : HttpRequest) (g : Gate)
    : Bool × Gate → Type 0 where
  throttled :
      is_failed_auth_ip_blocked now (g.buckets (ip_of c r)) ≡ true → Defence c now r g (true, g)
  insecure :
      is_failed_auth_ip_blocked now (g.buckets (ip_of c r)) ≡ false
      → Defence c now r g (true, record_failure now (ip_of c r) g)
  passed :
      is_failed_auth_ip_blocked now (g.buckets (ip_of c r)) ≡ false
      → (r.is_secure || c.debug) ≡ true
      → Defence c now r g (false, g)

pub pre_auth_reject-Defence :
    (c : AuthSettings) (now : ℕ) (r : HttpRequest) (g : Gate)
    → Defence c now r g (pre_auth_reject c now r g)
unfolding pre_auth_reject
pre_auth_reject-Defence c now r g =
    elim (Bool-cases (is_failed_auth_ip_blocked now (g.buckets (ip_of c r)))) [
      | inl b ↦ rw b (throttled b)
      | inr b ↦ elim (Bool-cases (not r.is_secure && not c.debug)) [
        | inl e ↦ rw (b, e) (insecure b)
        | inr e ↦ rw (b, e) (passed b (ground arith))
      ]
    ]

key_authenticated-IsByKey :
    (h : Digests) (now : ℕ) (token : Codes) (g : Gate) (key : ApiKey) (s : Server)
    → SameAnswer (some key) (verify_uncached h now token g.server)
    → s.memberships ≡ g.server.memberships
    → IsByKey h now token g (key_authenticated key s)
unfolding resolve_effective_permissions
key_authenticated-IsByKey h now token g key s a e = record {
  key = key;
  actor = refl;
  workspace = refl;
  accepted = a;
  limited = λ p q. rw (sym e) (ground arith);
}

verified-Fits :
    (h : Digests) (c : AuthSettings) (now : ℕ) (r : HttpRequest) (token : Codes) (g : Gate)
    (x : Option ApiKey × Server)
    → is_failed_auth_ip_blocked now (g.buckets (ip_of c r)) ≡ false
    → (r.is_secure || c.debug) ≡ true
    → SameAnswer x.0 (verify_uncached h now token g.server)
    → x.1.memberships ≡ g.server.memberships
    → Fits h c now r token g (verified now (ip_of c r) g x)
verified-Fits h c now r token g (none, s) b t a e =
    record_failure-buckets c now r g _ b (unfold record_failure in refl)
verified-Fits h c now r token g (some key, s) b t a e = record {
  unblocked = b;
  transport = t;
  credential = inl (key_authenticated-IsByKey h now token g key s a e);
}

key_path-Fits :
    (h : Digests) (c : AuthSettings) (now : ℕ) (r : HttpRequest) (token : Codes) (g : Gate)
    (d : Bool × Gate)
    → IsFresh g.server
    → Defence c now r g d
    → Fits h c now r token g (key_path h now (ip_of c r) token d)
key_path-Fits h c now r token g d f (throttled b) = inl (b, refl)
key_path-Fits h c now r token g d f (insecure b) = record_failure-buckets c now r g _ b refl
key_path-Fits h c now r token g d f (passed b t) =
    verified-Fits h c now r token g (verify_token h now token g.server) b t
      (verify_token-Agrees h now token g.server f).answer
      (verify_token-memberships h now token g.server)

admitted-Fits :
    (h : Digests) (c : AuthSettings) (now : ℕ) (r : HttpRequest) (token : Codes) (g : Gate)
    (o : Option Authenticated)
    → is_failed_auth_ip_blocked now (g.buckets (ip_of c r)) ≡ false
    → (r.is_secure || c.debug) ≡ true
    → ((a : Authenticated) → o ≡ some a → IsByOauth h now token g a)
    → Fits h c now r token g (admitted now (ip_of c r) g o)
admitted-Fits h c now r token g none b t w = record_failure-buckets c now r g _ b refl
admitted-Fits h c now r token g (some a) b t w = record {
  unblocked = b;
  transport = t;
  credential = inr (w a refl);
}

oauth_path-Fits :
    (h : Digests) (c : AuthSettings) (now : ℕ) (r : HttpRequest) (token : Codes) (g : Gate)
    (d : Bool × Gate)
    → Defence c now r g d
    → Fits h c now r token g (oauth_path h now (ip_of c r) token d)
unfolding resolve_oauth_actor
oauth_path-Fits h c now r token g d (throttled b) = inl (b, refl)
oauth_path-Fits h c now r token g d (insecure b) = record_failure-buckets c now r g _ b refl
oauth_path-Fits h c now r token g d (passed b t) =
    admitted-Fits h c now r token g (resolve_oauth_actor h now token g) b t
      λ a e. for_token-IsByOauth h now token g _ a refl e

mcp_authenticate-Fits :
    (h : Digests) (c : AuthSettings) (now : ℕ) (r : HttpRequest) (token : Codes) (g : Gate)
    → IsFresh g.server
    → Fits h c now r token g (mcp_authenticate h c now r token g)
unfolding mcp_authenticate authenticate
mcp_authenticate-Fits h c now r token g f =
    let d = pre_auth_reject-Defence c now r g in
    elim (Bool-cases (is_some (after_prefix token_prefix token))) [
      | inl e ↦ rw e (key_path-Fits h c now r token g _ f d)
      | inr e ↦ rw e (oauth_path-Fits h c now r token g _ d)
    ]

Fits-IsAdmitted :
    (h : Digests) (c : AuthSettings) (now : ℕ) (r : HttpRequest) (token : Codes) (g : Gate)
    (x : Option Authenticated × Gate) (a : Authenticated)
    → Fits h c now r token g x
    → x.0 ≡ some a
    → IsAdmitted h c now r token g a
Fits-IsAdmitted h c now r token g (none, t) a f e = cc
Fits-IsAdmitted h c now r token g (some b, t) a f e =
    subst (IsAdmitted h c now r token g) (some_inj.0 e) f

Fits-IsRefused :
    (h : Digests) (c : AuthSettings) (now : ℕ) (r : HttpRequest) (token : Codes) (g : Gate)
    (x : Option Authenticated × Gate)
    → Fits h c now r token g x
    → x.0 ≡ none
    → IsRefused c now r g x.1
Fits-IsRefused h c now r token g (none, t) f e = f
Fits-IsRefused h c now r token g (some b, t) f e = cc

-- With a fresh cache of keys, a request is let through only from an address that is not blocked,
-- over HTTPS or in debugging, and with a key that the check without a cache accepts, with no
-- permission that the key or its issuer lacks, or with a live OAuth token of the scope whose user
-- has the membership that is attached, in an open workspace.
pub mcp_authenticate-IsAdmitted :
    (h : Digests) (c : AuthSettings) (now : ℕ) (r : HttpRequest) (token : Codes) (g : Gate)
    (a : Authenticated)
    → IsFresh g.server
    → (mcp_authenticate h c now r token g).0 ≡ some a
    → IsAdmitted h c now r token g a
mcp_authenticate-IsAdmitted h c now r token g a f e =
    Fits-IsAdmitted h c now r token g _ a (mcp_authenticate-Fits h c now r token g f) e

-- With a fresh cache of keys, a request that is refused either came from a blocked address and
-- changed nothing, or counts as one failure of its address and of no other.
pub mcp_authenticate-IsRefused :
    (h : Digests) (c : AuthSettings) (now : ℕ) (r : HttpRequest) (token : Codes) (g : Gate)
    → IsFresh g.server
    → (mcp_authenticate h c now r token g).0 ≡ none
    → IsRefused c now r g (mcp_authenticate h c now r token g).1
mcp_authenticate-IsRefused h c now r token g f e =
    Fits-IsRefused h c now r token g _ (mcp_authenticate-Fits h c now r token g f) e
