-- ===== src/ApiKeys/Verification/Requests.antt =====
-- Sequences of requests to the API keys (brightbean-studio/apps/api_keys/services.py): the cache is
-- never seen.
use bright_bean_paysys.Common.{
  ℕ, ◌≡◌, refl, sym, subst, Option, some, List, [], ◌∷◌, is_some, Result-cases, All, Bool-cases,
  inl, inr, Result, ok, err,
}
use bright_bean_paysys.Store.{Workspace, SocialAccount}
use bright_bean_paysys.Members.Roles.{WorkspaceMembership}
use bright_bean_paysys.ApiKeys.Token.{Codes, Digests}
use bright_bean_paysys.ApiKeys.Keys.{ApiKey, Server, KeyError, PermissionSet}
use bright_bean_paysys.ApiKeys.Scope.{
  new_key, with_key, rescoped, issue_api_key, update_api_key, revoke_api_key,
}
use bright_bean_paysys.ApiKeys.Verification.{verify_token, touch_last_used}
use bright_bean_paysys.ApiKeys.Scope.Authority.{issue_api_key-IsIssued, update_api_key-IsUpdated}
use bright_bean_paysys.ApiKeys.Verification.Cache.{
  verify_uncached, SameAnswer, IsBacked, IsFresh, invalidate-IsFresh, save_key-IsFresh,
  append-IsFresh, touch_last_used-IsFresh,
}
use bright_bean_paysys.ApiKeys.Verification.Verify.{verify_token-Agrees}

-- A request to the server. `staffs` is any change of the memberships.
pub data Request : Type 0 where
  issues : Codes → Workspace → List SocialAccount → ℕ → PermissionSet → Option ℕ → Request
  updates : ApiKey → ℕ → PermissionSet → List SocialAccount → Option ℕ → Request
  revokes : ApiKey → Request
  verifies : Codes → Request
  touches : ApiKey → Option ℕ → Request
  staffs : List WorkspaceMembership → Request

-- The server after a call: a call that raises leaves it alone.
abbrev pub after_issue : Server → Result KeyError (Codes × Server) → Server
after_issue s (ok r) = r.1
after_issue s (err _) = s

abbrev pub after_update : Server → Result KeyError Server → Server
after_update s (ok t) = t
after_update s (err _) = s

unfoldable pub serve : Digests → ℕ → Request → Server → Server
serve h now (issues r ws accounts issuer perms expires) s =
    after_issue s (issue_api_key h r ws accounts issuer perms expires s)
serve h now (updates key editor perms accounts expires) s =
    after_update s (update_api_key key editor perms accounts expires s)
serve h now (revokes key) s = revoke_api_key now key s
serve h now (verifies raw) s = (verify_token h now raw s).1
serve h now (touches key ip) s = touch_last_used now key ip s
serve h now (staffs ms) s = record s { memberships = ms }

-- Requests, each with the time at which it comes.
unfoldable pub serve_all : Digests → List (ℕ × Request) → Server → Server
serve_all h [] s = s
serve_all h ((now, q) ∷ qs) s = serve_all h qs (serve h now q s)

serve-IsFresh :
    (h : Digests) (now : ℕ) (q : Request) (s : Server) → IsFresh s → IsFresh (serve h now q s)
unfolding serve rescoped
serve-IsFresh h now (issues r ws accounts issuer perms expires) s f =
    elim (Result-cases (issue_api_key h r ws accounts issuer perms expires s)) [
      | inl (a, e) ↦ rw e (
          subst (λ b. IsFresh b.1)
            (sym (issue_api_key-IsIssued h r ws accounts issuer perms expires s e).result)
            (unfold with_key in append-IsFresh (new_key h r ws accounts issuer perms expires) s f))
      | inr (a, e) ↦ rw e f
    ]
serve-IsFresh h now (updates key editor perms accounts expires) s f =
    elim (Result-cases (update_api_key key editor perms accounts expires s)) [
      | inl (t, e) ↦ rw e (
          subst IsFresh
            (sym (update_api_key-IsUpdated key editor perms accounts expires s e).result)
            (save_key-IsFresh (rescoped key editor perms accounts expires s) (λ k. refl)
              key.lookup_prefix s f))
      | inr (a, e) ↦ rw e f
    ]
serve-IsFresh h now (revokes key) s f =
    unfold revoke_api_key in
    elim (Bool-cases (is_some key.revoked_at)) [
      | inl e ↦ rw e (invalidate-IsFresh key.lookup_prefix s f)
      | inr e ↦ rw e (
          save_key-IsFresh (λ k. record k { revoked_at = some now }) (λ k. refl) key.lookup_prefix s
            f)
    ]
serve-IsFresh h now (verifies raw) s f = (verify_token-Agrees h now raw s f).fresh
serve-IsFresh h now (touches key ip) s f = touch_last_used-IsFresh now key ip s f
serve-IsFresh h now (staffs ms) s f = f

serve_all-IsFresh :
    (h : Digests) (qs : List (ℕ × Request)) (s : Server) → IsFresh s → IsFresh (serve_all h qs s)
unfolding serve_all
serve_all-IsFresh h [] s f = f
serve_all-IsFresh h ((now, q) ∷ qs) s f =
    serve_all-IsFresh h qs (serve h now q s) (serve-IsFresh h now q s f)

-- Where one cache serves all workers: after any sequence of requests to a server that starts with an
-- empty cache, with memberships changing in between, `verify_token` accepts a token exactly when the
-- check without a cache does, and answers with the row of the table but for its last use. So with such
-- a cache a change or a revocation of a key counts from the next request on. With a cache for each
-- process another worker may accept a revoked key until its entry expires.
pub verify_token-refines :
    (h : Digests) (qs : List (ℕ × Request)) (s : Server) (now : ℕ) (raw : Codes)
    → s.cache ≡ []
    → let t = serve_all h qs s in
      SameAnswer (verify_token h now raw t).0 (verify_uncached h now raw t)
verify_token-refines h qs s now raw e =
    let t = serve_all h qs s in
    let f : IsFresh s = subst (All (IsBacked s.keys)) (sym e) tt in
    (verify_token-Agrees h now raw t (serve_all-IsFresh h qs s f)).answer
