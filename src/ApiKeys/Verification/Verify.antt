-- ===== src/ApiKeys/Verification/Verify.antt =====
-- `verify_token` with its cache (brightbean-studio/apps/api_keys/services.py) answers as the check
-- that always reads the table, over any sequence of requests.
use bright_bean_paysys.Common.{
  ℕ, ◌≡◌, refl, ap, sym, subst, Bool, ◌&&◌, Option, none, some, List, [], ◌∷◌, arith, find, All,
  Bool-cases, inl, inr,
}
use bright_bean_paysys.Members.Roles.{WorkspaceMembership}
use bright_bean_paysys.ApiKeys.Token.{Codes, same, Digests, ParsedToken, parse_token}
use bright_bean_paysys.ApiKeys.Token.RoundTrip.{same_iff}
use bright_bean_paysys.ApiKeys.Keys.{
  ApiKey, Cached, Server, has_lookup, is_cached_under, row_of, cache_get, cache_set,
  invalidate_api_key_cache, is_active,
}
use bright_bean_paysys.ApiKeys.Verification.{
  issuer_still_authorized, check_key, remember, verify_stored, verify_found, verify_parsed,
  verify_token,
}
use bright_bean_paysys.ApiKeys.Verification.Cache.{
  judged, judged_parsed, verify_uncached, SameScope, SameScope-refl, SameAnswer, IsBacked, IsFresh,
  invalidate-IsFresh, cache_set-IsFresh, find-has_lookup,
}

abbrev Answer : Type 0
Answer = Option ApiKey × Server

-- The answer fits the reference, and the cache stays fresh.
pub record Agrees (a : Answer) (reference : Option ApiKey) : Type 0 where
  pub answer : SameAnswer a.0 reference
  pub fresh : IsFresh a.1

check_key-eq :
    (h : Digests) (now : ℕ) (p : ParsedToken) (key : ApiKey) (s : Server)
    → (check_key h now p key s).0 ≡ judged h now s.memberships p (some key)
unfolding check_key
check_key-eq h now p key s = ground arith

check_key-IsFresh :
    (h : Digests) (now : ℕ) (p : ParsedToken) (key : ApiKey) (s : Server)
    → IsFresh s
    → IsFresh (check_key h now p key s).1
unfolding check_key
check_key-IsFresh h now p key s f = elim (Bool-cases (is_active now key)) [
  | inr a ↦ rw a (invalidate-IsFresh p.lookup_prefix s f)
  | inl a ↦ elim (Bool-cases (same (h.hmac_hex p.random_part) key.token_hash)) [
    | inr b ↦ rw (a, b) f
    | inl b ↦ elim (Bool-cases (issuer_still_authorized s.memberships key)) [
      | inr c ↦ rw (a, b, c) (invalidate-IsFresh p.lookup_prefix s f)
      | inl c ↦ rw (a, b, c) f
    ]
  ]
]

abbrev passes : Digests → ℕ → List WorkspaceMembership → ParsedToken → ApiKey → Bool
passes h now ms p key =
    is_active now key
    && same (h.hmac_hex p.random_part) key.token_hash
    && issuer_still_authorized ms key

passes-SameScope :
    (h : Digests) (now : ℕ) (ms : List WorkspaceMembership) (p : ParsedToken) (c r : ApiKey)
    → SameScope c r
    → passes h now ms p r ≡ passes h now ms p c
unfolding is_active issuer_still_authorized
passes-SameScope h now ms p c r k = ap (passes h now ms p) k.scope

-- The reference reads only the scope of a row.
judged-SameScope :
    (h : Digests) (now : ℕ) (ms : List WorkspaceMembership) (p : ParsedToken) (c r : ApiKey)
    → SameScope c r
    → SameAnswer (judged h now ms p (some c)) (judged h now ms p (some r))
judged-SameScope h now ms p c r k =
    let eq_ = passes-SameScope h now ms p c r k in
    elim (Bool-cases (passes h now ms p c)) [ inl e ↦ rw (eq_, e) k | inr e ↦ rw (eq_, e) tt ]

check_key-Agrees :
    (h : Digests) (now : ℕ) (p : ParsedToken) (c r : ApiKey) (s : Server)
    → SameScope c r
    → IsFresh s
    → Agrees (check_key h now p c s) (judged h now s.memberships p (some r))
check_key-Agrees h now p c r s k f = record {
  answer =
      subst (λ a. SameAnswer a (judged h now s.memberships p (some r)))
        (sym (check_key-eq h now p c s)) (judged-SameScope h now s.memberships p c r k);
  fresh = check_key-IsFresh h now p c s f;
}

remember-parts :
    (now : ℕ) (key : ApiKey) (s : Server)
    → find (has_lookup key.lookup_prefix) s.keys ≡ some key
    → IsFresh s
    → IsFresh (remember now key s)
unfolding remember
remember-parts now key s e f = elim (Bool-cases (is_active now key)) [
  | inl a ↦ rw a (cache_set-IsFresh now key s e f)
  | inr a ↦ rw a f
]

remember-memberships :
    (now : ℕ) (key : ApiKey) (s : Server) → (remember now key s).memberships ≡ s.memberships
unfolding remember cache_set invalidate_api_key_cache
remember-memberships now key s = ground arith

verify_stored-Agrees :
    (h : Digests) (now : ℕ) (p : ParsedToken) (stored : Option ApiKey) (s : Server)
    → find (has_lookup p.lookup_prefix) s.keys ≡ stored
    → IsFresh s
    → Agrees (verify_stored h now p stored s) (judged h now s.memberships p stored)
verify_stored-Agrees h now p none s e f = record { answer = tt; fresh = f }
verify_stored-Agrees h now p (some key) s e f =
    let own = find-has_lookup p.lookup_prefix s.keys key e in
    let fresh =
      remember-parts now key s (subst (λ l. find (has_lookup l) s.keys ≡ some key) (sym own) e) f in
    subst (λ ms. Agrees (check_key h now p key (remember now key s)) (judged h now ms p (some key)))
      (remember-memberships now key s)
      (check_key-Agrees h now p key key (remember now key s) (SameScope-refl key) fresh)

-- A hit of the cache is a row of the table, but for its last use.
hit-IsBacked :
    (lookup : Codes) (keys : List ApiKey) (x : Cached) (c : ApiKey)
    → IsBacked keys x
    → x.row.lookup_prefix ≡ lookup
    → x.row ≡ c
    → (r : ApiKey) × (find (has_lookup lookup) keys ≡ some r) × SameScope c r
hit-IsBacked lookup keys x c b same_lookup same_row = (
  b.stored,
  subst (λ l. find (has_lookup l) keys ≡ some b.stored) same_lookup b.found,
  subst (λ k. SameScope k b.stored) same_row b.scope,
)

live_row : (now : ℕ) (x : Cached) (c : ApiKey) → row_of now (some x) ≡ some c → x.row ≡ c
live_row now x c e = ground arith

cached-IsBacked :
    (now : ℕ) (lookup : Codes) (keys : List ApiKey) (cs : List Cached) (c : ApiKey)
    → All (IsBacked keys) cs
    → row_of now (find (is_cached_under lookup) cs) ≡ some c
    → (r : ApiKey) × (find (has_lookup lookup) keys ≡ some r) × SameScope c r
cached-IsBacked now lookup keys [] c h e = cc
cached-IsBacked now lookup keys (x ∷ cs) c h e = elim (Bool-cases (is_cached_under lookup x)) [
  | inl t ↦
      hit-IsBacked lookup keys x c h.0 ((same_iff x.row.lookup_prefix lookup).0 t)
        (live_row now x c (rw t at e))
  | inr t ↦ cached-IsBacked now lookup keys cs c h.1 (rw t at e)
]

cache_get-IsBacked :
    (now : ℕ) (lookup : Codes) (s : Server) (c : ApiKey)
    → IsFresh s
    → cache_get now lookup s ≡ some c
    → (r : ApiKey) × (find (has_lookup lookup) s.keys ≡ some r) × SameScope c r
unfolding cache_get
cache_get-IsBacked now lookup s c f e = cached-IsBacked now lookup s.keys s.cache c f e

verify_found-Agrees :
    (h : Digests) (now : ℕ) (p : ParsedToken) (hit : Option ApiKey) (s : Server)
    → cache_get now p.lookup_prefix s ≡ hit
    → IsFresh s
    → Agrees
        (verify_found h now p hit s)
        (judged h now s.memberships p (find (has_lookup p.lookup_prefix) s.keys))
verify_found-Agrees h now p none s e f =
    verify_stored-Agrees h now p (find (has_lookup p.lookup_prefix) s.keys) s refl f
verify_found-Agrees h now p (some c) s e f =
    let (r, found, scope) = cache_get-IsBacked now p.lookup_prefix s c f e in
    rw found (check_key-Agrees h now p c r s scope f)

verify_parsed-Agrees :
    (h : Digests) (now : ℕ) (p : Option ParsedToken) (s : Server)
    → IsFresh s
    → Agrees (verify_parsed h now p s) (judged_parsed h now p s)
verify_parsed-Agrees h now none s f = record { answer = tt; fresh = f }
verify_parsed-Agrees h now (some p) s f =
    verify_found-Agrees h now p (cache_get now p.lookup_prefix s) s refl f

pub verify_token-Agrees :
    (h : Digests) (now : ℕ) (raw : Codes) (s : Server)
    → IsFresh s
    → Agrees (verify_token h now raw s) (verify_uncached h now raw s)
unfolding verify_token
verify_token-Agrees h now raw s f = verify_parsed-Agrees h now (parse_token h raw) s f
