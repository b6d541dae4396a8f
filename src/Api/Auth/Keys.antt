-- ===== src/Api/Auth/Keys.antt =====
-- What a verification of a token leaves alone (brightbean-studio/apps/api_keys/services.py).
use bright_bean_paysys.Common.{ℕ, ◌≡◌, refl, ◌∙◌, Option, none, some, arith, find}
use bright_bean_paysys.ApiKeys.Token.{Codes, Digests, parse_token, ParsedToken}
use bright_bean_paysys.ApiKeys.Keys.{
  ApiKey, Server, cache_get, cache_set, has_lookup, invalidate_api_key_cache,
}
use bright_bean_paysys.ApiKeys.Verification.{
  check_key, remember, verify_stored, verify_found, verify_parsed, verify_token,
}

-- A verification leaves the memberships alone.
check_key-memberships :
    (h : Digests) (now : ℕ) (p : ParsedToken) (key : ApiKey) (s : Server)
    → (check_key h now p key s).1.memberships ≡ s.memberships
unfolding check_key invalidate_api_key_cache
check_key-memberships h now p key s = ground arith

remember-memberships :
    (now : ℕ) (key : ApiKey) (s : Server) → (remember now key s).memberships ≡ s.memberships
unfolding remember cache_set invalidate_api_key_cache
remember-memberships now key s = ground arith

verify_stored-memberships :
    (h : Digests) (now : ℕ) (p : ParsedToken) (o : Option ApiKey) (s : Server)
    → (verify_stored h now p o s).1.memberships ≡ s.memberships
verify_stored-memberships h now p none s = refl
verify_stored-memberships h now p (some key) s =
    check_key-memberships h now p key (remember now key s) ∙ remember-memberships now key s

verify_found-memberships :
    (h : Digests) (now : ℕ) (p : ParsedToken) (o : Option ApiKey) (s : Server)
    → (verify_found h now p o s).1.memberships ≡ s.memberships
verify_found-memberships h now p (some key) s = check_key-memberships h now p key s
verify_found-memberships h now p none s =
    verify_stored-memberships h now p (find (has_lookup p.lookup_prefix) s.keys) s

verify_parsed-memberships :
    (h : Digests) (now : ℕ) (p : Option ParsedToken) (s : Server)
    → (verify_parsed h now p s).1.memberships ≡ s.memberships
verify_parsed-memberships h now none s = refl
verify_parsed-memberships h now (some p) s =
    verify_found-memberships h now p (cache_get now p.lookup_prefix s) s

pub verify_token-memberships :
    (h : Digests) (now : ℕ) (raw : Codes) (s : Server)
    → (verify_token h now raw s).1.memberships ≡ s.memberships
unfolding verify_token
verify_token-memberships h now raw s = verify_parsed-memberships h now (parse_token h raw) s
