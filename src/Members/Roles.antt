-- ===== src/Members/Roles.antt =====
-- brightbean-studio/apps/members/models.py: roles and the permissions that they carry.
use bright_bean_paysys.Common.{ℕ, Bool, true, false, Option, none, some}

-- `WorkspaceMembership.WorkspaceRole`
pub data WorkspaceRole : Type 0 where
  owner manager editor contributor client viewer : WorkspaceRole

-- `PERMISSION_KEYS`
pub data Permission : Type 0 where
  create_posts edit_others_posts approve_posts publish_directly : Permission
  manage_social_accounts view_analytics use_inbox reply_from_inbox : Permission
  manage_workspace_settings upload_media edit_media delete_media manage_media : Permission

-- `BUILTIN_ROLE_PERMISSIONS`
unfoldable pub builtin_permissions : WorkspaceRole → Permission → Bool
builtin_permissions owner _ = true
builtin_permissions manager manage_workspace_settings = false
builtin_permissions manager _ = true
builtin_permissions editor create_posts = true
builtin_permissions editor edit_others_posts = true
builtin_permissions editor view_analytics = true
builtin_permissions editor use_inbox = true
builtin_permissions editor reply_from_inbox = true
builtin_permissions editor upload_media = true
builtin_permissions editor edit_media = true
builtin_permissions editor delete_media = true
builtin_permissions editor _ = false
builtin_permissions contributor create_posts = true
builtin_permissions contributor upload_media = true
builtin_permissions contributor edit_media = true
builtin_permissions contributor _ = false
builtin_permissions client approve_posts = true
builtin_permissions client view_analytics = true
builtin_permissions client _ = false
builtin_permissions viewer view_analytics = true
builtin_permissions viewer _ = false

-- A membership row; `custom_role` is the permission dict of the custom role, if it has one.
pub record WorkspaceMembership : Type 0 where
  pub user : ℕ
  pub workspace_id : ℕ
  pub workspace_role : WorkspaceRole
  pub custom_role : Option (Permission → Bool)

abbrev pub choose : Option (Permission → Bool) → WorkspaceRole → Permission → Bool
choose none role = builtin_permissions role
choose (some custom) _ = custom

-- `WorkspaceMembership.effective_permissions`
unfoldable pub effective_permissions : WorkspaceMembership → Permission → Bool
effective_permissions m = choose m.custom_role m.workspace_role
