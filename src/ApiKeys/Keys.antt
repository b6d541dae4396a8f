-- ===== src/ApiKeys/Keys.antt =====
-- brightbean-studio/apps/api_keys/models.py and signals.py: the rows of keys, and the cache of
-- verified rows. `lookup_prefix`, which is unique, stands for the row's key; the name, the creation
-- time and the rate overrides are left out. The cache is the shared one of Django.
use bright_bean_paysys.Common.{
  ℕ, ◌+◌, Bool, false, ◌&&◌, not, Option, none, some, is_some, List, ◌∷◌, ltb, leb, if◌then◌else◌,
  filter, find,
}
use bright_bean_paysys.Common.Rows.{update_where}
use bright_bean_paysys.Store.{Workspace}
use bright_bean_paysys.Members.Roles.{Permission, WorkspaceMembership}
use bright_bean_paysys.Members.Services.{OrgMembership}
use bright_bean_paysys.ApiKeys.Token.{Codes, same}

-- A list of permission keys, as the set that it stands for.
abbrev pub PermissionSet : Type 0
PermissionSet = Permission → Bool

pub record ApiKey : Type 0 where
  pub lookup_prefix : Codes
  pub token_hash : Codes
  pub workspace : Workspace
  pub social_accounts : List ℕ
  pub issued_by : Option ℕ
  pub permissions : PermissionSet
  pub expires_at : Option ℕ
  pub revoked_at : Option ℕ
  pub last_used_at : Option ℕ
  pub last_used_ip : Option ℕ

abbrev pub has_passed : ℕ → Option ℕ → Bool
has_passed now none = false
has_passed now (some t) = leb t now

-- `ApiKey.is_active`
unfoldable pub is_active : ℕ → ApiKey → Bool
is_active now key = not (is_some key.revoked_at) && not (has_passed now key.expires_at)

-- An entry of the row cache, under the row's lookup, and one of the debounce cache.
pub record Cached : Type 0 where
  pub row : ApiKey
  pub until : ℕ

pub record Touched : Type 0 where
  pub lookup_prefix : Codes
  pub until : ℕ

pub record Server : Type 0 where
  pub keys : List ApiKey
  pub memberships : List WorkspaceMembership
  pub org_memberships : List OrgMembership
  pub cache : List Cached
  pub touched : List Touched

-- The `ValueError`s, and the database's refusal of a second row with one lookup.
pub data KeyError : Type 0 where
  no_accounts foreign_account not_manager not_member ungrantable integrity_error : KeyError

abbrev pub has_lookup : Codes → ApiKey → Bool
has_lookup lookup key = same key.lookup_prefix lookup

abbrev pub is_cached_under : Codes → Cached → Bool
is_cached_under lookup c = same c.row.lookup_prefix lookup

-- `cache.get`, `cache.set` and `cache.delete` of the active row
abbrev pub row_of : ℕ → Option Cached → Option ApiKey
row_of now none = none
row_of now (some c) = if ltb now c.until then some c.row else none

unfoldable pub cache_get : ℕ → Codes → Server → Option ApiKey
unfolding same
cache_get now lookup s = row_of now (find (is_cached_under lookup) s.cache)

unfoldable pub invalidate_api_key_cache : Codes → Server → Server
unfolding same
invalidate_api_key_cache lookup s = record s {
  cache = filter (λ c. not (is_cached_under lookup c)) s.cache;
}

abbrev pub revocation_cache_ttl : ℕ
revocation_cache_ttl = 30

unfoldable pub cache_set : ℕ → ApiKey → Server → Server
unfolding invalidate_api_key_cache
cache_set now key s =
    let rest = invalidate_api_key_cache key.lookup_prefix s in
    record rest { cache = record { row = key; until = now + revocation_cache_ttl } ∷ rest.cache }

-- Saving a row, or changing its accounts: the signals of signals.py drop its cache entry.
unfoldable pub save_key : Codes → (ApiKey → ApiKey) → Server → Server
unfolding invalidate_api_key_cache same
save_key lookup change s =
    invalidate_api_key_cache lookup
      (record s { keys = update_where (has_lookup lookup) change s.keys })
