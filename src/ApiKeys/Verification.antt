-- ===== src/ApiKeys/Verification.antt =====
-- brightbean-studio/apps/api_keys/services.py: the check of a token, and the permissions of its key.
pub mod Cache
pub mod Verify
pub mod Requests
use bright_bean_paysys.Common.{
  ℕ, ◌+◌, Bool, true, false, ◌&&◌, ◌||◌, not, Option, none, some, is_some, List, [], ◌∷◌, ◌++◌,
  ◌==◌, ltb, leb, if◌then◌else◌, any, all, filter, find, is_empty, Result, ok, err, raise_if, ◌>>◌,
  ◌>>=◌,
}
use bright_bean_paysys.Common.Rows.{update_where}
use bright_bean_paysys.Store.{Workspace, SocialAccount}
use bright_bean_paysys.Members.Roles.{
  Permission, create_posts, edit_others_posts, approve_posts, publish_directly,
  manage_social_accounts, view_analytics, use_inbox, reply_from_inbox, manage_workspace_settings,
  upload_media, edit_media, delete_media, manage_media, WorkspaceMembership, effective_permissions,
}
use bright_bean_paysys.Members.Services.{OrgMembership}
use bright_bean_paysys.Members.OrgPermissions.{manage_api_keys, has_org_permission}
use bright_bean_paysys.ApiKeys.Token.{
  Codes, same, Digests, make_lookup, plaintext_token, ParsedToken, parse_token,
}
use bright_bean_paysys.ApiKeys.Keys.{
  PermissionSet, ApiKey, has_passed, is_active, Cached, Touched, Server, KeyError, has_lookup,
  is_cached_under, row_of, cache_get, invalidate_api_key_cache, revocation_cache_ttl, cache_set,
  save_key, no_accounts, foreign_account, not_manager, not_member, ungrantable, integrity_error,
}
use bright_bean_paysys.ApiKeys.Scope.{
  all_permissions, account_ids, org_membership_of, membership_of, permissions_of, belong_to,
  check_accounts, check_manager, new_key, with_key, is_grantable, issue_api_key, merged, rescoped,
  update_api_key, revoke_api_key,
}

-- `_issuer_still_authorized`
abbrev pub is_membership : Option ℕ → ℕ → WorkspaceMembership → Bool
is_membership none ws m = false
is_membership (some user) ws m = m.user == user && m.workspace_id == ws

unfoldable pub issuer_still_authorized : List WorkspaceMembership → ApiKey → Bool
issuer_still_authorized memberships key =
    any (is_membership key.issued_by key.workspace.id) memberships

-- The checks of a row that was found, with what each does to the cache.
unfoldable pub check_key : Digests → ℕ → ParsedToken → ApiKey → Server → Option ApiKey × Server
unfolding is_active same issuer_still_authorized invalidate_api_key_cache
check_key h now p key s =
    if not (is_active now key)
    then (none, invalidate_api_key_cache p.lookup_prefix s)
    else if not (same (h.hmac_hex p.random_part) key.token_hash)
    then (none, s)
    else if not (issuer_still_authorized s.memberships key)
    then (none, invalidate_api_key_cache p.lookup_prefix s)
    else (some key, s)

-- On a cache miss the row of the table is taken, and cached if it is active.
unfoldable pub remember : ℕ → ApiKey → Server → Server
unfolding cache_set is_active
remember now key s = if is_active now key then cache_set now key s else s

abbrev pub verify_stored :
    Digests → ℕ → ParsedToken → Option ApiKey → Server → Option ApiKey × Server
verify_stored h now p none s = (none, s)
verify_stored h now p (some key) s = check_key h now p key (remember now key s)

abbrev pub verify_found :
    Digests → ℕ → ParsedToken → Option ApiKey → Server → Option ApiKey × Server
verify_found h now p (some key) s = check_key h now p key s
verify_found h now p none s = verify_stored h now p (find (has_lookup p.lookup_prefix) s.keys) s

abbrev pub verify_parsed : Digests → ℕ → Option ParsedToken → Server → Option ApiKey × Server
verify_parsed h now none s = (none, s)
verify_parsed h now (some p) s = verify_found h now p (cache_get now p.lookup_prefix s) s

-- `verify_token`
unfoldable pub verify_token : Digests → ℕ → Codes → Server → Option ApiKey × Server
unfolding parse_token cache_get check_key remember
verify_token h now raw s = verify_parsed h now (parse_token h raw) s

abbrev pub last_used_debounce_seconds : ℕ
last_used_debounce_seconds = 60

-- `cache.add` of the debounce key: an entry that has not run out wins.
unfoldable pub is_debounced : ℕ → Codes → Server → Bool
is_debounced now lookup s = any (λ t. same t.lookup_prefix lookup && ltb now t.until) s.touched

-- `touch_last_used`: an UPDATE that sends no signal, so the cached row keeps the old columns.
unfoldable pub touch_last_used : ℕ → ApiKey → Option ℕ → Server → Server
unfolding is_debounced same
touch_last_used now key ip s = if is_debounced now key.lookup_prefix s then s else record s {
  keys =
      update_where (has_lookup key.lookup_prefix)
        (λ k. record k { last_used_at = some now; last_used_ip = ip }) s.keys;
  touched =
      record { lookup_prefix = key.lookup_prefix; until = now + last_used_debounce_seconds }
      ∷ s.touched;
}

-- `_resolve_effective_permissions` of apps/api/auth.py
unfoldable pub resolve_effective_permissions : ApiKey → Server → PermissionSet
resolve_effective_permissions key s p =
    key.permissions p
    && permissions_of (find (is_membership key.issued_by key.workspace.id) s.memberships) p
