-- ===== src/Members/Examples.antt =====
-- Invitations, role changes and removals on a concrete organization.
use bright_bean_paysys.Common.{ℕ, ◌≡◌, ◌≤◌, refl, some, List, [], ◌∷◌, ◌++◌, arith, ok}
use bright_bean_paysys.Store.{unrestricted}
use bright_bean_paysys.Members.Roles.{WorkspaceRole}
use bright_bean_paysys.Members.Services.{
  OrgRole, Invitation, owner, admin, member, OrgMembership, Assignment, Directory,
  inviter_org_level, inviter_workspace_level, is_org_workspace, create_invitation,
  update_member_org_role, remove_member, owner_count, check_invitation, check_assignments,
  check_assignment, check_org_role,
}
use bright_bean_paysys.Members.Services.Authority.{IsWithinAuthority, create_invitation-authority}
use bright_bean_paysys.Members.Services.Owners.{remove_member_keeps-owner}
use bright_bean_paysys.Members.Workspaces.{update_workspace_assignments, check_current}
use bright_bean_paysys.Members.Workspaces.Given.{Given}
use bright_bean_paysys.Members.Workspaces.Authority.{
  IsAuthorized, update_workspace_assignments-authority,
}
use bright_bean_paysys.Samples.{a_workspace}

abbrev membership : ℕ → ℕ → OrgRole → OrgMembership
membership k user role = record {
  id = k;
  user = user;
  email = user;
  organization = 9;
  org_role = role;
}

-- users 1 and 2 own organization 9; user 3 manages workspace 1
abbrev directory : Directory
directory = record {
  workspaces = a_workspace unrestricted ∷ [];
  org_memberships = membership 11 1 owner ∷ membership 12 2 owner ∷ membership 13 3 member ∷ [];
  assigned = record { user = 3; workspace_id = 1; role = WorkspaceRole.manager } ∷ [];
  invitations = [];
}

abbrev as_editor : List Assignment
as_editor = record { workspace_id = 1; role = some WorkspaceRole.editor } ∷ []

invited :
    (d : Directory) × (create_invitation 100 77 9 4 (some member) as_editor 3 directory ≡ ok d)
unfolding create_invitation check_invitation check_assignments check_assignment is_org_workspace
    inviter_workspace_level inviter_org_level
invited = (_, refl)

create_invitation-authority_example :
    (i : Invitation) × (invited.0
      ≡ record directory { invitations = directory.invitations ++ (i ∷ []) })
    × (i.email ≡ 4)
    × (i.org_role ≡ some member)
    × (i.assignments ≡ as_editor)
    × IsWithinAuthority 3 9 directory i
create_invitation-authority_example =
    create_invitation-authority 100 77 9 4 (some member) as_editor 3 directory invited.1

promoted :
    (d : Directory) × (update_member_org_role 9 (membership 13 3 member) (some admin) 1 directory
      ≡ ok d)
unfolding update_member_org_role check_org_role inviter_org_level
promoted = (_, refl)

demoted :
    (d : Directory) × (update_member_org_role 9 (membership 12 2 owner) (some member) 1 directory
      ≡ ok d)
unfolding update_member_org_role check_org_role inviter_org_level owner_count
demoted = (_, refl)

removed : (d : Directory) × (remove_member 9 (membership 12 2 owner) 1 directory ≡ ok d)
unfolding remove_member owner_count
removed = (_, refl)

remove_member_keeps-owner_example : 1 ≤ owner_count 9 removed.0.org_memberships
unfolding owner_count
remove_member_keeps-owner_example =
    remove_member_keeps-owner 9 (membership 12 2 owner) 1 directory (refl, (refl, (refl, tt))) refl
      (omega arith) removed.1

-- owner 1 makes user 3 an editor of workspace 1
reassigned : (d : Directory) × (update_workspace_assignments 1 9 3 as_editor directory ≡ ok d)
unfolding update_workspace_assignments check_current inviter_workspace_level inviter_org_level
    is_org_workspace check_assignments check_assignment
reassigned = (_, refl)

update_workspace_assignments-authority_example : IsAuthorized 1 9 3 directory reassigned.0
update_workspace_assignments-authority_example =
    update_workspace_assignments-authority 1 9 3 as_editor directory reassigned.1
