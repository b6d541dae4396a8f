-- ===== src/ApiKeys/Scope/Authority.antt =====
-- Who may issue and change a key, and what the key may then do
-- (brightbean-studio/apps/api_keys/services.py and brightbean-studio/apps/api/auth.py).
use bright_bean_paysys.Common.{
  ℕ, zero, suc, ◌≡◌, refl, sym, ◌∙◌, ◌⊎◌, Bool, true, false, ◌&&◌, not, Option, none, some, is_some,
  is_empty, List, [], ◌∷◌, ◌++◌, map, ap, arith, any, ok, raise_if, then_ok, ok-injective,
}
use bright_bean_paysys.Store.{Workspace, SocialAccount}
use bright_bean_paysys.Members.Roles.{
  Permission, create_posts, edit_others_posts, approve_posts, publish_directly,
  manage_social_accounts, view_analytics, use_inbox, reply_from_inbox, manage_workspace_settings,
  upload_media, edit_media, delete_media, manage_media,
}
use bright_bean_paysys.Members.Services.{owner, admin, OrgMembership}
use bright_bean_paysys.Members.OrgPermissions.{
  manage_api_keys, has_org_permission, builtin_org_permissions,
}
use bright_bean_paysys.ApiKeys.Token.{Codes, Digests, plaintext_token}
use bright_bean_paysys.ApiKeys.Keys.{
  ApiKey, Server, ungrantable, integrity_error, PermissionSet, has_lookup, save_key,
  invalidate_api_key_cache,
}
use bright_bean_paysys.ApiKeys.Scope.{
  new_key, with_key, account_ids, is_grantable, all_permissions, permissions_of, membership_of,
  org_membership_of, check_accounts, check_manager, belong_to, issue_api_key, rescoped,
  update_api_key,
}

-- The parts of an issue that goes through.
pub record IsIssued (h : Digests) (r : Codes) (ws : Workspace) (accounts : List SocialAccount)
    (issuer : ℕ) (perms : PermissionSet) (expires : Option ℕ) (s : Server) (a : Codes × Server)
    : Type 0 where
  pub accounts_ok : check_accounts ws accounts ≡ ok tt
  pub manager_ok : check_manager issuer ws s ≡ ok tt
  pub grantable :
      raise_if (not (is_grantable perms (permissions_of (membership_of issuer ws s)))) ungrantable
      ≡ ok tt
  pub result : a ≡ (plaintext_token h r, with_key (new_key h r ws accounts issuer perms expires) s)

pub issue_api_key-IsIssued :
    (h : Digests) (r : Codes) (ws : Workspace) (accounts : List SocialAccount) (issuer : ℕ)
    (perms : PermissionSet) (expires : Option ℕ) (s : Server) {a : Codes × Server}
    → issue_api_key h r ws accounts issuer perms expires s ≡ ok a
    → IsIssued h r ws accounts issuer perms expires s a
unfolding issue_api_key
issue_api_key-IsIssued h r ws accounts issuer perms expires s e =
    let (first, e1) = then_ok (check_accounts ws accounts) _ e in
    let (second, e2) = then_ok (check_manager issuer ws s) _ e1 in
    let (third, e3) =
      then_ok
        (raise_if (not (is_grantable perms (permissions_of (membership_of issuer ws s))))
          ungrantable)
        _ e2 in
    let (_, e4) =
      then_ok
        (raise_if
          (any (has_lookup (new_key h r ws accounts issuer perms expires).lookup_prefix) s.keys)
          integrity_error)
        _ e3 in
    record {
      accounts_ok = first;
      manager_ok = second;
      grantable = third;
      result = sym (ok-injective e4);
    }

pub record IsUpdated (key : ApiKey) (editor : ℕ) (perms : PermissionSet)
    (accounts : List SocialAccount) (expires : Option ℕ) (s t : Server) : Type 0 where
  pub manager_ok : check_manager editor key.workspace s ≡ ok tt
  pub accounts_ok : check_accounts key.workspace accounts ≡ ok tt
  pub result : t ≡ save_key key.lookup_prefix (rescoped key editor perms accounts expires s) s

pub update_api_key-IsUpdated :
    (key : ApiKey) (editor : ℕ) (perms : PermissionSet) (accounts : List SocialAccount)
    (expires : Option ℕ) (s : Server) {t : Server}
    → update_api_key key editor perms accounts expires s ≡ ok t
    → IsUpdated key editor perms accounts expires s t
unfolding update_api_key
update_api_key-IsUpdated key editor perms accounts expires s e =
    let (first, e1) = then_ok (check_manager editor key.workspace s) _ e in
    let (second, e2) = then_ok (check_accounts key.workspace accounts) _ e1 in
    record { manager_ok = first; accounts_ok = second; result = sym (ok-injective e2) }

manager_of_check :
    (user : ℕ) (ws : Workspace) (s : Server)
    → check_manager user ws s ≡ ok tt
    → (has_org_permission (org_membership_of user ws s) manage_api_keys ≡ true)
      × (is_some (membership_of user ws s) ≡ true)
unfolding check_manager
manager_of_check user ws s e = ground arith

accounts_of_check :
    (ws : Workspace) (accounts : List SocialAccount)
    → check_accounts ws accounts ≡ ok tt
    → (is_empty accounts ≡ false) × (belong_to ws accounts ≡ true)
unfolding check_accounts
accounts_of_check ws accounts e = ground arith

negated_false : (b : Bool) → not b ≡ true → b ≡ false
negated_false true h = cc
negated_false false h = refl

-- the place of a permission in `all_permissions`
place : Permission → ℕ
place create_posts = 0
place edit_others_posts = 1
place approve_posts = 2
place publish_directly = 3
place manage_social_accounts = 4
place view_analytics = 5
place use_inbox = 6
place reply_from_inbox = 7
place manage_workspace_settings = 8
place upload_media = 9
place edit_media = 10
place delete_media = 11
place manage_media = 12

nth : ℕ → List Permission → Option Permission
nth n [] = none
nth zero (p ∷ ps) = some p
nth (suc n) (p ∷ ps) = nth n ps

nth-place : (p : Permission) → nth (place p) all_permissions ≡ some p
unfolding nth place
nth-place create_posts = refl
nth-place p = refl

none_of-any :
    (f : PermissionSet) (ps : List Permission) (n : ℕ) (p : Permission)
    → any f ps ≡ false
    → nth n ps ≡ some p
    → f p ≡ false
unfolding nth
none_of-any f [] n p h e = cc
none_of-any f (q ∷ ps) zero p h e = ground arith
none_of-any f (q ∷ ps) (suc n) p h e = ground (arith, none_of-any f ps n p)

held_of_grantable :
    (perms held : PermissionSet) (p : Permission)
    → is_grantable perms held ≡ true
    → perms p ≡ true
    → held p ≡ true
unfolding is_grantable
held_of_grantable perms held p g e =
    let f = λ (q : Permission). perms q && not (held q) in
    let ps = all_permissions in
    ground (arith, none_of-any f ps (place p) p (negated_false (any f ps) g) (nth-place p))

allowed : (b : Bool) → raise_if (not b) ungrantable ≡ ok tt → b ≡ true
allowed true e = refl
allowed false e = cc

-- A senior role in the organization, and nobody else, manages keys.
manager_role :
    (o : Option OrgMembership)
    → has_org_permission o manage_api_keys ≡ true
    → (m : OrgMembership) × (o ≡ some m) × ((m.org_role ≡ owner) ⊎ (m.org_role ≡ admin))
unfolding has_org_permission builtin_org_permissions
manager_role none e = cc
manager_role (some m) e = (m, refl, ground arith)

account_ids-eq : (accounts : List SocialAccount) → account_ids accounts ≡ map (λ a. a.id) accounts
account_ids-eq [] = refl
account_ids-eq (a ∷ accounts) = ap (λ ks. a.id ∷ ks) (account_ids-eq accounts)

with_key-keys : (key : ApiKey) (s : Server) → (with_key key s).keys ≡ s.keys ++ (key ∷ [])
unfolding with_key invalidate_api_key_cache
with_key-keys key s = refl

-- The row of a key that was issued.
pub record IsNewKey (ws : Workspace) (accounts : List SocialAccount) (issuer : ℕ)
    (perms : PermissionSet) (expires : Option ℕ) (key : ApiKey) : Type 0 where
  pub workspace : key.workspace ≡ ws
  pub accounts_as_asked : key.social_accounts ≡ map (λ a. a.id) accounts
  pub permissions_as_asked : (p : Permission) → key.permissions p ≡ perms p
  pub by_issuer : key.issued_by ≡ some issuer
  pub expiry : key.expires_at ≡ expires
  pub not_revoked : key.revoked_at ≡ none

-- A key is issued only by an owner or an admin of the workspace's organization who is a member of
-- the workspace, for at least one account and for accounts of the workspace only, and with no
-- permission that the issuer does not hold there. Exactly one row is added to the keys: it is of the
-- workspace and the issuer, not revoked, and has the accounts, permissions and expiry asked for.
pub issue_api_key-authority :
    (h : Digests) (r : Codes) (ws : Workspace) (accounts : List SocialAccount) (issuer : ℕ)
    (perms : PermissionSet) (expires : Option ℕ) (s : Server) {a : Codes × Server}
    → issue_api_key h r ws accounts issuer perms expires s ≡ ok a
    → ((m : OrgMembership) × (org_membership_of issuer ws s ≡ some m)
        × ((m.org_role ≡ owner) ⊎ (m.org_role ≡ admin)))
      × (is_some (membership_of issuer ws s) ≡ true)
      × (is_empty accounts ≡ false)
      × (belong_to ws accounts ≡ true)
      × ((p : Permission) → perms p ≡ true → permissions_of (membership_of issuer ws s) p ≡ true)
      × ((key : ApiKey) × (a.1.keys ≡ s.keys ++ (key ∷ []))
          × IsNewKey ws accounts issuer perms expires key)
issue_api_key-authority h r ws accounts issuer perms expires s e =
    let parts = issue_api_key-IsIssued h r ws accounts issuer perms expires s e in
    let (manager, in_workspace) = manager_of_check issuer ws s parts.manager_ok in
    let (some_account, own_accounts) = accounts_of_check ws accounts parts.accounts_ok in
    let held = permissions_of (membership_of issuer ws s) in
    (
      manager_role (org_membership_of issuer ws s) manager,
      in_workspace,
      some_account,
      own_accounts,
      λ p. held_of_grantable perms held p (allowed (is_grantable perms held) parts.grantable),
      (
        new_key h r ws accounts issuer perms expires,
        ap (λ a. a.1.keys) parts.result
            ∙ with_key-keys (new_key h r ws accounts issuer perms expires) s,
        record {
          workspace = refl;
          accounts_as_asked = account_ids-eq accounts;
          permissions_as_asked = λ p. refl;
          by_issuer = refl;
          expiry = refl;
          not_revoked = refl;
        },
      ),
    )
