-- ===== src/ApiKeys/Examples.antt =====
-- A key that is issued, used and revoked. The digests are stand-ins with the right shape.
use bright_bean_paysys.Common.{
  ℕ, zero, suc, ◌≡◌, refl, ◌↔◌, ◌⊎◌, true, false, none, some, is_some, is_empty, List, [], ◌∷◌, ok,
  ◌++◌,
}
use bright_bean_paysys.Store.{unrestricted}
use bright_bean_paysys.Members.Roles.{
  Permission, create_posts, WorkspaceRole, builtin_permissions, effective_permissions,
}
use bright_bean_paysys.Members.Services.{owner, admin, OrgMembership}
use bright_bean_paysys.ApiKeys.Token.{
  Codes, Digests, make_lookup, plaintext_token, ParsedToken, parse_token,
}
use bright_bean_paysys.ApiKeys.Token.RoundTrip.{IsHex, IsSecret, parse_token_iff}
use bright_bean_paysys.ApiKeys.Keys.{ApiKey, Server, PermissionSet}
use bright_bean_paysys.ApiKeys.Scope.{
  new_key, membership_of, org_membership_of, permissions_of, belong_to, issue_api_key,
  revoke_api_key,
}
use bright_bean_paysys.ApiKeys.Verification.{verify_token}
use bright_bean_paysys.ApiKeys.Verification.Cache.{SameAnswer, verify_uncached}
use bright_bean_paysys.ApiKeys.Verification.Requests.{
  Request, issues, verifies, revokes, serve, serve_all, verify_token-refines,
}
use bright_bean_paysys.ApiKeys.Scope.Authority.{IsNewKey, issue_api_key-authority}
use bright_bean_paysys.Samples.{a_workspace, an_account}

abbrev zeros : ℕ → Codes
zeros zero = []
zeros (suc n) = b'0' ∷ zeros n

abbrev pub digests : Digests
digests = record { sha256_hex = λ _. zeros 64; hmac_hex = λ r. r }

digests-IsHex : IsHex digests
digests-IsHex = record { length_64 = λ _. refl; no_underscore = λ _. refl }

abbrev pub secret : Codes
secret = zeros 40

parse_token_iff_example :
    (parse_token digests (plaintext_token digests secret)
      ≡ some (record { random_part = secret; lookup_prefix = make_lookup digests secret }))
    ↔ (◌≡◌ {A = ParsedToken}
        (record { random_part = secret; lookup_prefix = make_lookup digests secret })
        (record { random_part = secret; lookup_prefix = make_lookup digests secret }))
      × IsSecret secret
      × (plaintext_token digests secret ≡ plaintext_token digests secret)
parse_token_iff_example =
    parse_token_iff digests digests-IsHex (plaintext_token digests secret)
      (record { random_part = secret; lookup_prefix = make_lookup digests secret })

-- user 1 owns organization 9 and manages workspace 1
abbrev pub server : Server
server = record {
  keys = [];
  memberships =
      record {
        user = 1;
        workspace_id = 1;
        workspace_role = WorkspaceRole.manager;
        custom_role = none;
      }
      ∷ [];
  org_memberships =
      record { id = 11; user = 1; email = 1; organization = 9; org_role = owner } ∷ [];
  cache = [];
  touched = [];
}

abbrev to_create : PermissionSet
to_create create_posts = true
to_create _ = false

abbrev pub key : ApiKey
key = new_key digests secret (a_workspace unrestricted) (an_account ∷ []) 1 to_create none

abbrev requests : List (ℕ × Request)
requests =
    (10, issues secret (a_workspace unrestricted) (an_account ∷ []) 1 to_create none)
    ∷ (20, verifies (plaintext_token digests secret))
    ∷ (25, revokes key)
    ∷ []

verify_token-refines_example :
    let t = serve_all digests requests server in
    SameAnswer
      (verify_token digests 30 (plaintext_token digests secret) t).0
      (verify_uncached digests 30 (plaintext_token digests secret) t)
verify_token-refines_example =
    verify_token-refines digests requests server 30 (plaintext_token digests secret) refl

-- a revoked key is refused at the next request, before its cache entry has run out
revoked_refused :
    (verify_token digests 30 (plaintext_token digests secret) (serve_all digests requests server)).0
    ≡ none
unfolding verify_token serve_all plaintext_token serve revoke_api_key issue_api_key
    effective_permissions builtin_permissions
revoked_refused = refl

issued :
    (a : Codes × Server) × (issue_api_key digests secret
        (a_workspace unrestricted)
        (an_account ∷ [])
        1
        to_create
        none
        server
      ≡ ok a)
unfolding issue_api_key effective_permissions builtin_permissions
issued = (_, refl)

issue_api_key-authority_example :
    ((m : OrgMembership) × (org_membership_of 1 (a_workspace unrestricted) server ≡ some m)
      × ((m.org_role ≡ owner) ⊎ (m.org_role ≡ admin)))
    × (is_some (membership_of 1 (a_workspace unrestricted) server) ≡ true)
    × (is_empty (an_account ∷ []) ≡ false)
    × (belong_to (a_workspace unrestricted) (an_account ∷ []) ≡ true)
    × ((p : Permission)
        → to_create p ≡ true
        → permissions_of (membership_of 1 (a_workspace unrestricted) server) p ≡ true)
    × ((key : ApiKey) × (issued.0.1.keys ≡ server.keys ++ (key ∷ []))
        × IsNewKey (a_workspace unrestricted) (an_account ∷ []) 1 to_create none key)
issue_api_key-authority_example =
    issue_api_key-authority digests secret (a_workspace unrestricted) (an_account ∷ []) 1 to_create
      none server issued.1
