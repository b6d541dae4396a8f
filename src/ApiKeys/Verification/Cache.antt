-- ===== src/ApiKeys/Verification/Cache.antt =====
-- The row cache of `verify_token` (brightbean-studio/apps/api_keys/services.py, signals.py) against
-- a check of the token that always reads the table.
use bright_bean_paysys.Common.{
  ℕ, ◌≡◌, refl, ap, ◌∙◌, Bool, true, false, ◌&&◌, not, Option, none, some, List, [], ◌∷◌, ◌++◌,
  arith, if◌then◌else◌, filter, find, All, Bool-cases, inl, inr,
}
use bright_bean_paysys.Common.Rows.{update_where}
use bright_bean_paysys.Members.Roles.{WorkspaceMembership}
use bright_bean_paysys.ApiKeys.Token.{Codes, same, Digests, ParsedToken, parse_token}
use bright_bean_paysys.ApiKeys.Token.RoundTrip.{same_iff}
use bright_bean_paysys.ApiKeys.Keys.{
  ApiKey, Cached, Server, has_lookup, is_cached_under, cache_set, invalidate_api_key_cache,
  save_key, is_active,
}
use bright_bean_paysys.ApiKeys.Verification.{issuer_still_authorized, is_debounced, touch_last_used}

-- `verify_token` without a cache.
abbrev pub judged :
    Digests → ℕ → List WorkspaceMembership → ParsedToken → Option ApiKey → Option ApiKey
judged h now ms p none = none
judged h now ms p (some key) =
    if is_active now key
      && same (h.hmac_hex p.random_part) key.token_hash
      && issuer_still_authorized ms key
    then some key
    else none

abbrev pub judged_parsed : Digests → ℕ → Option ParsedToken → Server → Option ApiKey
judged_parsed h now none s = none
judged_parsed h now (some p) s =
    judged h now s.memberships p (find (has_lookup p.lookup_prefix) s.keys)

abbrev pub verify_uncached : Digests → ℕ → Codes → Server → Option ApiKey
verify_uncached h now raw s = judged_parsed h now (parse_token h raw) s

-- The rows agree in all but the columns of the last use.
pub record SameScope (c r : ApiKey) : Type 0 where
  pub scope : r ≡ record c { last_used_at = r.last_used_at; last_used_ip = r.last_used_ip }

abbrev pub SameAnswer : Option ApiKey → Option ApiKey → Type 0
SameAnswer none none = Unit
SameAnswer none (some _) = ⊥
SameAnswer (some _) none = ⊥
SameAnswer (some c) (some r) = SameScope c r

-- A cached row is one of the table.
pub record IsBacked (keys : List ApiKey) (c : Cached) : Type 0 where
  pub stored : ApiKey
  pub found : find (has_lookup c.row.lookup_prefix) keys ≡ some stored
  pub scope : SameScope c.row stored

abbrev pub IsFresh : Server → Type 0
IsFresh s = All (IsBacked s.keys) s.cache

pub find-has_lookup :
    (lookup : Codes) (keys : List ApiKey) (r : ApiKey)
    → find (has_lookup lookup) keys ≡ some r
    → r.lookup_prefix ≡ lookup
find-has_lookup lookup [] r e = cc
find-has_lookup lookup (k ∷ keys) r e =
    ground (arith, same_iff k.lookup_prefix lookup, find-has_lookup lookup keys r)

filter-IsBacked :
    (keys : List ApiKey) (p : Cached → Bool) (cs : List Cached)
    → All (IsBacked keys) cs
    → All (IsBacked keys) (filter p cs)
filter-IsBacked keys p [] h = tt
filter-IsBacked keys p (c ∷ cs) h = elim (Bool-cases (p c)) [
  | inl e ↦ rw e (h.0, filter-IsBacked keys p cs h.1)
  | inr e ↦ rw e (filter-IsBacked keys p cs h.1)
]

pub invalidate-IsFresh :
    (lookup : Codes) (s : Server) → IsFresh s → IsFresh (invalidate_api_key_cache lookup s)
unfolding invalidate_api_key_cache
invalidate-IsFresh lookup s h =
    filter-IsBacked s.keys (λ c. not (is_cached_under lookup c)) s.cache h

pub SameScope-refl : (r : ApiKey) → SameScope r r
SameScope-refl r = record { scope = refl }

pub cache_set-IsFresh :
    (now : ℕ) (key : ApiKey) (s : Server)
    → find (has_lookup key.lookup_prefix) s.keys ≡ some key
    → IsFresh s
    → IsFresh (cache_set now key s)
unfolding cache_set
cache_set-IsFresh now key s e h = (
  record { stored = key; found = e; scope = SameScope-refl key },
  invalidate-IsFresh key.lookup_prefix s h,
)

module _ (change : ApiKey → ApiKey)
    (keeps : (k : ApiKey) → (change k).lookup_prefix ≡ k.lookup_prefix) where
  find-update :
      (lookup here : Codes) (keys : List ApiKey) (r : ApiKey)
      → find (has_lookup lookup) keys ≡ some r
      → find (has_lookup lookup) (update_where (has_lookup here) change keys)
        ≡ some (if same lookup here then change r else r)
  find-update lookup here [] r e = cc
  find-update lookup here (k ∷ keys) r e =
      ground (arith, keeps k, same_iff k.lookup_prefix lookup, find-update lookup here keys r)

-- Entries under another lookup keep their rows, whatever a change does.
save-IsBacked :
    (change : ApiKey → ApiKey)
    → ((k : ApiKey) → (change k).lookup_prefix ≡ k.lookup_prefix)
    → (here : Codes) (keys : List ApiKey) (cs : List Cached) → All (IsBacked keys) cs
    → All
        (IsBacked (update_where (has_lookup here) change keys))
        (filter (λ c. not (is_cached_under here c)) cs)
save-IsBacked change keeps here keys [] h = tt
save-IsBacked change keeps here keys (c ∷ cs) h =
    let rest = save-IsBacked change keeps here keys cs h.1 in
    let b = h.0 in
    elim (Bool-cases (is_cached_under here c)) [
      | inl e ↦ rw e rest
      | inr e ↦ rw e (
        record {
          stored = b.stored;
          found =
              find-update change keeps c.row.lookup_prefix here keys b.stored b.found
              ∙ ap (λ t. some (if t then change b.stored else b.stored)) e;
          scope = b.scope;
        },
        rest,
      )
    ]

pub save_key-IsFresh :
    (change : ApiKey → ApiKey)
    → ((k : ApiKey) → (change k).lookup_prefix ≡ k.lookup_prefix)
    → (here : Codes) (s : Server) → IsFresh s
    → IsFresh (save_key here change s)
unfolding save_key invalidate_api_key_cache
save_key-IsFresh change keeps here s h = save-IsBacked change keeps here s.keys s.cache h

find-append :
    (lookup : Codes) (keys more : List ApiKey) (r : ApiKey)
    → find (has_lookup lookup) keys ≡ some r
    → find (has_lookup lookup) (keys ++ more) ≡ some r
find-append lookup [] more r e = cc
find-append lookup (k ∷ keys) more r e = ground (arith, find-append lookup keys more r)

append-IsBacked :
    (keys more : List ApiKey) (cs : List Cached)
    → All (IsBacked keys) cs
    → All (IsBacked (keys ++ more)) cs
append-IsBacked keys more [] h = tt
append-IsBacked keys more (c ∷ cs) h =
    let b = h.0 in
    (
      record {
        stored = b.stored;
        found = find-append c.row.lookup_prefix keys more b.stored b.found;
        scope = b.scope;
      },
      append-IsBacked keys more cs h.1,
    )

-- A new row leaves the cache fresh, and dropping its entry too.
pub append-IsFresh :
    (key : ApiKey) (s : Server)
    → IsFresh s
    → IsFresh (invalidate_api_key_cache key.lookup_prefix (record s { keys = s.keys ++ key ∷ [] }))
append-IsFresh key s h =
    invalidate-IsFresh key.lookup_prefix (record s { keys = s.keys ++ key ∷ [] })
      (append-IsBacked s.keys (key ∷ []) s.cache h)

-- Noting a use changes no scope, so the entries stand.
abbrev used : ℕ → Option ℕ → ApiKey → ApiKey
used now ip k = record k { last_used_at = some now; last_used_ip = ip }

used-SameScope :
    (now : ℕ) (ip : Option ℕ) (t : Bool) (c r : ApiKey)
    → SameScope c r
    → SameScope c (if t then used now ip r else r)
used-SameScope now ip true c r h = record { scope = ground (arith, h.scope) }
used-SameScope now ip false c r h = h

used-IsBacked :
    (now : ℕ) (ip : Option ℕ) (here : Codes) (keys : List ApiKey) (cs : List Cached)
    → All (IsBacked keys) cs
    → All (IsBacked (update_where (has_lookup here) (used now ip) keys)) cs
used-IsBacked now ip here keys [] h = tt
used-IsBacked now ip here keys (c ∷ cs) h =
    let b = h.0 in
    (
      record {
        stored = if same c.row.lookup_prefix here then used now ip b.stored else b.stored;
        found =
            find-update (used now ip) (λ k. refl) c.row.lookup_prefix here keys b.stored b.found;
        scope = used-SameScope now ip (same c.row.lookup_prefix here) c.row b.stored b.scope;
      },
      used-IsBacked now ip here keys cs h.1,
    )

pub touch_last_used-IsFresh :
    (now : ℕ) (key : ApiKey) (ip : Option ℕ) (s : Server)
    → IsFresh s
    → IsFresh (touch_last_used now key ip s)
unfolding touch_last_used
touch_last_used-IsFresh now key ip s h = elim (Bool-cases (is_debounced now key.lookup_prefix s)) [
  | inl e ↦ rw e h
  | inr e ↦ rw e (used-IsBacked now ip key.lookup_prefix s.keys s.cache h)
]
