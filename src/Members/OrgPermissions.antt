-- ===== src/Members/OrgPermissions.antt =====
-- brightbean-studio/apps/members/models.py: the permissions that a role in the organization carries.
use bright_bean_paysys.Common.{Bool, true, false, Option, none, some}
use bright_bean_paysys.Members.Services.{OrgRole, owner, admin, member, OrgMembership}

-- `ORG_PERMISSION_KEYS`
pub data OrgPermission : Type 0 where
  manage_intelligence_billing use_intelligence manage_api_keys : OrgPermission

-- `BUILTIN_ORG_PERMISSIONS`
unfoldable pub builtin_org_permissions : OrgRole → OrgPermission → Bool
builtin_org_permissions owner _ = true
builtin_org_permissions admin _ = true
builtin_org_permissions member use_intelligence = true
builtin_org_permissions member _ = false

unfoldable pub has_org_permission : Option OrgMembership → OrgPermission → Bool
unfolding builtin_org_permissions
has_org_permission none key = false
has_org_permission (some m) key = builtin_org_permissions m.org_role key
