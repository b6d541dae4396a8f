-- ===== src/ApiKeys/Scope.antt =====
-- brightbean-studio/apps/api_keys/services.py: issuing, changing and revoking keys.
pub mod Authority
use bright_bean_paysys.Common.{
  ℕ, ◌+◌, Bool, true, false, ◌&&◌, ◌||◌, not, Option, none, some, is_some, List, [], ◌∷◌, ◌++◌,
  ◌==◌, ltb, leb, if◌then◌else◌, any, all, filter, find, is_empty, Result, ok, err, raise_if, ◌>>◌,
  ◌>>=◌,
}
use bright_bean_paysys.Common.Rows.{update_where}
use bright_bean_paysys.Store.{Workspace, SocialAccount}
use bright_bean_paysys.Members.Roles.{
  Permission, create_posts, edit_others_posts, approve_posts, publish_directly,
  manage_social_accounts, view_analytics, use_inbox, reply_from_inbox, manage_workspace_settings,
  upload_media, edit_media, delete_media, manage_media, WorkspaceMembership, effective_permissions,
}
use bright_bean_paysys.Members.Services.{OrgMembership}
use bright_bean_paysys.Members.OrgPermissions.{manage_api_keys, has_org_permission}
use bright_bean_paysys.ApiKeys.Token.{
  Codes, same, Digests, make_lookup, plaintext_token, ParsedToken, parse_token,
}
use bright_bean_paysys.ApiKeys.Keys.{
  PermissionSet, ApiKey, has_passed, is_active, Cached, Touched, Server, KeyError, has_lookup,
  is_cached_under, row_of, cache_get, invalidate_api_key_cache, revocation_cache_ttl, cache_set,
  save_key, no_accounts, foreign_account, not_manager, not_member, ungrantable, integrity_error,
}

abbrev pub all_permissions : List Permission
all_permissions =
    create_posts ∷ edit_others_posts ∷ approve_posts ∷ publish_directly ∷ manage_social_accounts
    ∷ view_analytics ∷ use_inbox ∷ reply_from_inbox ∷ manage_workspace_settings ∷ upload_media
    ∷ edit_media ∷ delete_media ∷ manage_media ∷ []

abbrev pub account_ids : List SocialAccount → List ℕ
account_ids [] = []
account_ids (a ∷ accounts) = a.id ∷ account_ids accounts

unfoldable pub org_membership_of : ℕ → Workspace → Server → Option OrgMembership
org_membership_of user ws s =
    find (λ m. m.user == user && m.organization == ws.organization_id) s.org_memberships

unfoldable pub membership_of : ℕ → Workspace → Server → Option WorkspaceMembership
membership_of user ws s = find (λ m. m.user == user && m.workspace_id == ws.id) s.memberships

abbrev pub permissions_of : Option WorkspaceMembership → PermissionSet
permissions_of none p = false
permissions_of (some m) p = effective_permissions m p

abbrev pub belong_to : Workspace → List SocialAccount → Bool
belong_to ws accounts = all (λ a. a.workspace_id == ws.id) accounts

-- The checks that issuing and changing a key share; they make the first two in different orders.
unfoldable pub check_accounts : Workspace → List SocialAccount → Result KeyError (Unit {0})
check_accounts ws accounts = do
  raise_if (is_empty accounts) no_accounts
  raise_if (not (belong_to ws accounts)) foreign_account

unfoldable pub check_manager : ℕ → Workspace → Server → Result KeyError (Unit {0})
unfolding org_membership_of has_org_permission membership_of
check_manager user ws s = do
  raise_if (not (has_org_permission (org_membership_of user ws s) manage_api_keys)) not_manager
  raise_if (not (is_some (membership_of user ws s))) not_member

-- The row that `issue_api_key` creates from a fresh secret.
abbrev pub new_key :
    Digests → Codes → Workspace → List SocialAccount → ℕ → PermissionSet → Option ℕ → ApiKey
new_key h random_part ws accounts issuer requested expires_at = record {
  lookup_prefix = make_lookup h random_part;
  token_hash = h.hmac_hex random_part;
  workspace = ws;
  social_accounts = account_ids accounts;
  issued_by = some issuer;
  permissions = requested;
  expires_at = expires_at;
  revoked_at = none;
  last_used_at = none;
  last_used_ip = none;
}

-- The table with the new row, and the signals of its creation.
unfoldable pub with_key : ApiKey → Server → Server
unfolding invalidate_api_key_cache
with_key key s = invalidate_api_key_cache key.lookup_prefix (record s { keys = s.keys ++ key ∷ [] })

-- `requested - granter_perms`, as a test that it is empty
unfoldable pub is_grantable : PermissionSet → PermissionSet → Bool
is_grantable requested held = not (any (λ p. requested p && not (held p)) all_permissions)

-- `issue_api_key`; `random_part` is what `secrets.token_urlsafe(32)` draws.
unfoldable pub issue_api_key :
    Digests
    → Codes
    → Workspace
    → List SocialAccount
    → ℕ
    → PermissionSet
    → Option ℕ
    → Server
    → Result KeyError (Codes × Server)
unfolding check_accounts check_manager make_lookup plaintext_token with_key is_grantable same
issue_api_key h random_part ws accounts issuer requested expires_at s =
    let key = new_key h random_part ws accounts issuer requested expires_at in
    check_accounts ws accounts
    >> (check_manager issuer ws s
        >> (raise_if (not (is_grantable requested (permissions_of (membership_of issuer ws s))))
              ungrantable
            >> (raise_if (any (has_lookup key.lookup_prefix) s.keys) integrity_error
                >> ok (plaintext_token h random_part, with_key key s))))

-- `(requested & editor_grantable) | (current - editor_grantable)`
unfoldable pub merged : PermissionSet → PermissionSet → PermissionSet → PermissionSet
merged current grantable requested p = if grantable p then requested p else current p

-- The row with its new scope.
unfoldable pub rescoped :
    ApiKey → ℕ → PermissionSet → List SocialAccount → Option ℕ → Server → ApiKey → ApiKey
unfolding merged membership_of
rescoped key editor requested accounts expires_at s k = record k {
  permissions =
      merged key.permissions (permissions_of (membership_of editor key.workspace s)) requested;
  expires_at = expires_at;
  social_accounts = account_ids accounts;
}

-- `update_api_key` of the row `key`
unfoldable pub update_api_key :
    ApiKey → ℕ → PermissionSet → List SocialAccount → Option ℕ → Server → Result KeyError Server
unfolding check_accounts check_manager merged save_key
update_api_key key editor requested accounts expires_at s =
    check_manager editor key.workspace s
    >> (check_accounts key.workspace accounts
        >> ok (save_key key.lookup_prefix (rescoped key editor requested accounts expires_at s) s))

-- `revoke_api_key` of the row `key`
unfoldable pub revoke_api_key : ℕ → ApiKey → Server → Server
unfolding save_key
revoke_api_key now key s =
    if is_some key.revoked_at
    then invalidate_api_key_cache key.lookup_prefix s
    else save_key key.lookup_prefix (λ k. record k { revoked_at = some now }) s
