-- ===== src/Members/Services.antt =====
-- brightbean-studio/apps/members/services.py: invitations and the roles of members. A role that is
-- no known string is `none`; addresses are compared only, in their stripped and lowered form, so
-- they are numbers. Emails are not sent here.
pub mod Authority
pub mod Owners
use bright_bean_paysys.Common.{
  ℕ, suc, ◌+◌, ◌*◌, Bool, true, false, not, ◌&&◌, ◌||◌, Option, none, some, List, [], ◌∷◌, ◌++◌,
  map, ◌==◌, leb, ltb, if◌then◌else◌, find, filter, any, length, is_some, Result, ok, err, raise_if,
  ◌>>=◌, ◌>>◌,
}
use bright_bean_paysys.Common.Rows.{update_where}
use bright_bean_paysys.Store.{Workspace}
use bright_bean_paysys.Members.Roles.{WorkspaceRole}

-- `OrgMembership.OrgRole`
pub data OrgRole : Type 0 where
  owner admin member : OrgRole

-- `ORG_ROLE_LEVEL` and `WS_ROLE_LEVEL`
abbrev pub org_level : OrgRole → ℕ
org_level owner = 3
org_level admin = 2
org_level member = 1

abbrev pub ws_level : WorkspaceRole → ℕ
ws_level WorkspaceRole.owner = 6
ws_level WorkspaceRole.manager = 5
ws_level WorkspaceRole.editor = 4
ws_level WorkspaceRole.contributor = 3
ws_level WorkspaceRole.client = 2
ws_level WorkspaceRole.viewer = 1

pub record OrgMembership : Type 0 where
  pub id : ℕ
  pub user : ℕ
  pub email : ℕ
  pub organization : ℕ
  pub org_role : OrgRole

pub record Assigned : Type 0 where
  pub user : ℕ
  pub workspace_id : ℕ
  pub role : WorkspaceRole

-- One entry of `workspace_assignments`.
pub record Assignment : Type 0 where
  pub workspace_id : ℕ
  pub role : Option WorkspaceRole

pub record Invitation : Type 0 where
  pub organization : ℕ
  pub email : ℕ
  pub token : ℕ
  pub org_role : Option OrgRole
  pub assignments : List Assignment
  pub expires_at : ℕ
  pub accepted_at : Option ℕ

pub record Directory : Type 0 where
  pub workspaces : List Workspace
  pub org_memberships : List OrgMembership
  pub assigned : List Assigned
  pub invitations : List Invitation

-- The `ValueError`s of the module.
pub data MemberError : Type 0 where
  already_member already_pending owner_invite unknown_role admin_needs_owner : MemberError
  foreign_workspace role_above_own : MemberError
  expired already_accepted other_email : MemberError
  own_removal last_owner owner_promotion outranked : MemberError

abbrev pub level_of : Option OrgMembership → ℕ
level_of none = 0
level_of (some m) = org_level m.org_role

-- `_inviter_org_level`
unfoldable pub inviter_org_level : ℕ → ℕ → Directory → ℕ
inviter_org_level user org d =
    level_of (find (λ m. m.user == user && m.organization == org) d.org_memberships)

abbrev pub assigned_level : Option Assigned → ℕ
assigned_level none = 0
assigned_level (some a) = ws_level a.role

-- `_inviter_workspace_level`
unfoldable pub inviter_workspace_level : ℕ → ℕ → ℕ → Directory → ℕ
inviter_workspace_level user org ws d =
    if leb 3 (inviter_org_level user org d)
    then 6
    else assigned_level (find (λ a. a.user == user && a.workspace_id == ws) d.assigned)

-- the workspaces of the organization that are not archived
unfoldable pub is_org_workspace : ℕ → ℕ → Directory → Bool
is_org_workspace org ws d =
    any (λ w. w.id == ws && w.organization_id == org && not w.is_archived) d.workspaces

abbrev pub requested_ws_level : Option WorkspaceRole → ℕ
requested_ws_level none = 0
requested_ws_level (some r) = ws_level r

-- One round of the loop over the assignments.
unfoldable pub check_assignment : ℕ → ℕ → Directory → Assignment → Result MemberError (Unit {0})
check_assignment inviter org d a = do
  raise_if (not (is_org_workspace org a.workspace_id d)) foreign_workspace
  raise_if (requested_ws_level a.role == 0) unknown_role
  raise_if (ltb (inviter_workspace_level inviter org a.workspace_id d) (requested_ws_level a.role))
      role_above_own

unfoldable pub check_assignments :
    ℕ → ℕ → Directory → List Assignment → Result MemberError (Unit {0})
check_assignments inviter org d [] = ok tt
check_assignments inviter org d (a ∷ rest) =
    check_assignment inviter org d a >> check_assignments inviter org d rest

abbrev pub requested_org_level : Option OrgRole → ℕ
requested_org_level none = 0
requested_org_level (some r) = org_level r

abbrev pub is_owner : Option OrgRole → Bool
is_owner (some owner) = true
is_owner _ = false

abbrev pub is_pending : ℕ → ℕ → ℕ → Invitation → Bool
is_pending now org email i =
    i.organization == org && i.email == email && not (is_some i.accepted_at) && ltb now i.expires_at

-- The checks of `create_invitation`, in its order.
unfoldable pub check_invitation :
    ℕ → ℕ → ℕ → Option OrgRole → List Assignment → ℕ → Directory → Result MemberError (Unit {0})
check_invitation now org email role assignments inviter d = do
  raise_if (any (λ m. m.organization == org && m.email == email) d.org_memberships) already_member
  raise_if (any (is_pending now org email) d.invitations) already_pending
  raise_if (is_owner role) owner_invite
  raise_if (requested_org_level role == 0) unknown_role
  raise_if
      (leb 2 (requested_org_level role)
        && leb (inviter_org_level inviter org d) (requested_org_level role))
      admin_needs_owner
  check_assignments inviter org d assignments

abbrev pub invite_expiry_seconds : ℕ
invite_expiry_seconds = 7 * 86400

unfoldable pub create_invitation :
    ℕ → ℕ → ℕ → ℕ → Option OrgRole → List Assignment → ℕ → Directory → Result MemberError Directory
create_invitation now token org email role assignments inviter d = do
  check_invitation now org email role assignments inviter d
  ok (record d {
    invitations =
        d.invitations
        ++ record {
          organization = org;
          email = email;
          token = token;
          org_role = role;
          assignments = assignments;
          expires_at = now + invite_expiry_seconds;
          accepted_at = none;
        }
          ∷ [];
  })

-- `OrgMembership.objects.get_or_create`; `fresh` is the key of a new row.
unfoldable pub join_organization : ℕ → ℕ → ℕ → ℕ → OrgRole → List OrgMembership → List OrgMembership
join_organization fresh user email org role ms =
    if any (λ m. m.user == user && m.organization == org) ms
    then ms
    else ms
      ++ record { id = fresh; user = user; email = email; organization = org; org_role = role } ∷ []

abbrev pub role_or_viewer : Option WorkspaceRole → WorkspaceRole
role_or_viewer none = WorkspaceRole.viewer
role_or_viewer (some r) = r

-- `WorkspaceMembership.objects.get_or_create` for each assignment
unfoldable pub join_workspaces : ℕ → List Assignment → List Assigned → List Assigned
join_workspaces user [] as_ = as_
join_workspaces user (a ∷ rest) as_ = join_workspaces user rest (
    if any (λ m. m.user == user && m.workspace_id == a.workspace_id) as_
    then as_
    else as_
      ++ record { user = user; workspace_id = a.workspace_id; role = role_or_viewer a.role } ∷ [])

-- the owners of the organization
unfoldable pub owner_count : ℕ → List OrgMembership → ℕ
owner_count org [] = 0
owner_count org (m ∷ ms) =
    let rest = owner_count org ms in
    if m.organization == org && is_owner (some m.org_role) then suc rest else rest

-- `update_member_org_role` for the row `m` by `caller`, who is always given by the views
unfoldable pub check_org_role :
    ℕ → OrgMembership → Option OrgRole → ℕ → Directory → Result MemberError (Unit {0})
check_org_role org m role caller d = do
  raise_if (is_owner role) owner_promotion
  raise_if (requested_org_level role == 0) unknown_role
  raise_if (ltb (inviter_org_level caller org d) (org_level m.org_role)) outranked
  raise_if
      (leb 2 (requested_org_level role)
        && leb (inviter_org_level caller org d) (requested_org_level role))
      admin_needs_owner
  raise_if (is_owner (some m.org_role) && leb (owner_count org d.org_memberships) 1) last_owner

abbrev pub role_or_member : Option OrgRole → OrgRole
role_or_member none = member
role_or_member (some r) = r

unfoldable pub update_member_org_role :
    ℕ → OrgMembership → Option OrgRole → ℕ → Directory → Result MemberError Directory
update_member_org_role org m role caller d = do
  check_org_role org m role caller d
  ok (record d {
    org_memberships =
        update_where (λ n. n.id == m.id) (λ n. record n { org_role = role_or_member role })
          d.org_memberships;
  })

-- `remove_member`: the rows of the user in the organization's workspaces go, archived ones too.
unfoldable pub remove_member : ℕ → OrgMembership → ℕ → Directory → Result MemberError Directory
remove_member org m removed_by d = do
  raise_if (m.user == removed_by) own_removal
  raise_if (is_owner (some m.org_role) && leb (owner_count org d.org_memberships) 1) last_owner
  ok (record d {
    assigned =
        filter
          (λ a. not (
            a.user == m.user
            && any (λ w. w.id == a.workspace_id && w.organization_id == org) d.workspaces))
          d.assigned;
    org_memberships = filter (λ n. not (n.id == m.id)) d.org_memberships;
  })

-- `accept_invitation` of the invitation `i` by a user; `match_required` is `require_email_match`.
unfoldable pub accept_invitation :
    ℕ → ℕ → ℕ → ℕ → Bool → Invitation → Directory → Result MemberError Directory
accept_invitation now fresh user email match_required i d = do
  raise_if (ltb i.expires_at now) expired
  raise_if (is_some i.accepted_at) already_accepted
  raise_if (match_required && not (email == i.email)) other_email
  ok (record d {
    org_memberships =
        join_organization fresh user email i.organization (role_or_member i.org_role)
          d.org_memberships;
    assigned = join_workspaces user i.assignments d.assigned;
    invitations =
        update_where (λ j. j.token == i.token) (λ j. record j { accepted_at = some now })
          d.invitations;
  })
