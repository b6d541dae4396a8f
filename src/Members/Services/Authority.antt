-- ===== src/Members/Services/Authority.antt =====
-- Nobody grants more than they have (brightbean-studio/apps/members/services.py).
use bright_bean_paysys.Common.{
  ℕ, ◌+◌, ◌≤◌, ◌≡◌, refl, sym, ◌++◌, then_ok, ok-injective, ◌⊎◌, true, Option, none, some, List, [],
  ◌∷◌, arith, All, Result, ok, err, ◌>>◌,
}
use bright_bean_paysys.Members.Roles.{
  WorkspaceRole, client, viewer, contributor, editor, Permission, approve_posts, view_analytics,
  builtin_permissions,
}
use bright_bean_paysys.Members.Services.{
  OrgRole, owner, admin, member, org_level, ws_level, Directory, Assignment, MemberError,
  Invitation, invite_expiry_seconds, OrgMembership, check_assignment, check_assignments,
  check_invitation, create_invitation, check_org_role, update_member_org_role, inviter_org_level,
  inviter_workspace_level, requested_ws_level, is_org_workspace,
}

-- The assignment is to a workspace of the organization, in a role that is known and no higher than
-- the inviter's there.
pub record IsGrantable (inviter org : ℕ) (d : Directory) (a : Assignment) : Type 0 where
  pub own : is_org_workspace org a.workspace_id d ≡ true
  pub known : 1 ≤ requested_ws_level a.role
  pub within : requested_ws_level a.role ≤ inviter_workspace_level inviter org a.workspace_id d

check_assignment-IsGrantable :
    (inviter org : ℕ) (d : Directory) (a : Assignment)
    → check_assignment inviter org d a ≡ ok tt
    → IsGrantable inviter org d a
unfolding check_assignment
check_assignment-IsGrantable inviter org d a h = ground arith

pub first_ok : (a b : Result MemberError (Unit {0})) → (a >> b) ≡ ok tt → (a ≡ ok tt) × (b ≡ ok tt)
first_ok (ok tt) b h = (refl, h)
first_ok (err e) b h = cc

pub check_assignments-IsGrantable :
    (inviter org : ℕ) (d : Directory) (as_ : List Assignment)
    → check_assignments inviter org d as_ ≡ ok tt
    → All (IsGrantable inviter org d) as_
unfolding check_assignments
check_assignments-IsGrantable inviter org d [] h = tt
check_assignments-IsGrantable inviter org d (a ∷ rest) h =
    let (here, there) =
      first_ok (check_assignment inviter org d a) (check_assignments inviter org d rest) h in
    (
      check_assignment-IsGrantable inviter org d a here,
      check_assignments-IsGrantable inviter org d rest there,
    )

check_invitation-parts :
    (now org email : ℕ) (role : Option OrgRole) (as_ : List Assignment) (inviter : ℕ)
    (d : Directory)
    → check_invitation now org email role as_ inviter d ≡ ok tt
    → ((role ≡ some member)
        ⊎ ((role ≡ some admin) × (org_level owner ≤ inviter_org_level inviter org d)))
      × (check_assignments inviter org d as_ ≡ ok tt)
unfolding check_invitation
check_invitation-parts now org email none as_ inviter d h = ground arith
check_invitation-parts now org email (some owner) as_ inviter d h = ground arith
check_invitation-parts now org email (some admin) as_ inviter d h = ground arith
check_invitation-parts now org email (some member) as_ inviter d h = ground arith

new_invitation : ℕ → ℕ → ℕ → ℕ → Option OrgRole → List Assignment → Invitation
new_invitation now token org email role as_ = record {
  organization = org;
  email = email;
  token = token;
  org_role = role;
  assignments = as_;
  expires_at = now + invite_expiry_seconds;
  accepted_at = none;
}

check_of_create :
    (now token org email : ℕ) (role : Option OrgRole) (as_ : List Assignment) (inviter : ℕ)
    (d : Directory) {d' : Directory}
    → create_invitation now token org email role as_ inviter d ≡ ok d'
    → check_invitation now org email role as_ inviter d ≡ ok tt
unfolding create_invitation
check_of_create now token org email role as_ inviter d h = ground arith

rows_of_create :
    (now token org email : ℕ) (role : Option OrgRole) (as_ : List Assignment) (inviter : ℕ)
    (d : Directory) {d' : Directory}
    → create_invitation now token org email role as_ inviter d ≡ ok d'
    → record d { invitations = d.invitations ++ (new_invitation now token org email role as_ ∷ []) }
      ≡ d'
unfolding create_invitation new_invitation
rows_of_create now token org email role as_ inviter d h =
    ok-injective (then_ok (check_invitation now org email role as_ inviter d) _ h).1

-- The invitation asks for what the inviter may grant: no owner, an admin only from an owner, and in
-- each workspace, which is one of the organization's, a role no higher than the inviter's there.
pub record IsWithinAuthority (inviter org : ℕ) (d : Directory) (i : Invitation) : Type 0 where
  pub organization : i.organization ≡ org
  pub org_part :
      (i.org_role ≡ some member)
      ⊎ ((i.org_role ≡ some admin) × (org_level owner ≤ inviter_org_level inviter org d))
  pub workspaces : All (IsGrantable inviter org d) i.assignments
  pub open_invitation : i.accepted_at ≡ none

-- A call that goes through stores exactly one more invitation and changes nothing else. The stored
-- invitation is to the email, with the role and assignments asked for; it never makes an owner, makes
-- an admin only if an owner invites, and grants in each workspace, which is one of the
-- organization's, a role no higher than the inviter's there.
pub create_invitation-authority :
    (now token org email : ℕ) (role : Option OrgRole) (as_ : List Assignment) (inviter : ℕ)
    (d : Directory) {d' : Directory}
    → create_invitation now token org email role as_ inviter d ≡ ok d'
    → (i : Invitation) × (d' ≡ record d { invitations = d.invitations ++ (i ∷ []) })
      × (i.email ≡ email)
      × (i.org_role ≡ role)
      × (i.assignments ≡ as_)
      × IsWithinAuthority inviter org d i
unfolding new_invitation
create_invitation-authority now token org email role as_ inviter d h =
    let (org_part, ws_part) =
      check_invitation-parts now org email role as_ inviter d
        (check_of_create now token org email role as_ inviter d h) in
    (
      new_invitation now token org email role as_,
      sym (rows_of_create now token org email role as_ inviter d h),
      refl,
      refl,
      refl,
      record {
        organization = refl;
        org_part = org_part;
        workspaces = check_assignments-IsGrantable inviter org d as_ ws_part;
        open_invitation = refl;
      },
    )

-- A role change that goes through is by somebody at least as senior as the member was, never makes
-- an owner, and makes an admin only if an owner asks.
pub update_member_org_role-authority :
    (org : ℕ) (m : OrgMembership) (role : Option OrgRole) (caller : ℕ) (d : Directory)
    {d' : Directory}
    → update_member_org_role org m role caller d ≡ ok d'
    → (org_level m.org_role ≤ inviter_org_level caller org d)
      × ((role ≡ some member)
          ⊎ ((role ≡ some admin) × (org_level owner ≤ inviter_org_level caller org d)))
unfolding update_member_org_role check_org_role
update_member_org_role-authority org m none caller d h = ground arith
update_member_org_role-authority org m (some owner) caller d h = ground arith
update_member_org_role-authority org m (some admin) caller d h = ground arith
update_member_org_role-authority org m (some member) caller d h = ground arith

-- The levels order the roles almost as their permissions do: a role that is no higher may do
-- nothing that the higher one may not, but for clients, who approve posts though editors and
-- contributors do not, and for clients and viewers, who see analytics though contributors do not.
pub permission_by_level :
    (r s : WorkspaceRole) (p : Permission)
    → ws_level r ≤ ws_level s
    → builtin_permissions r p ≡ true
    → (builtin_permissions s p ≡ true)
      ⊎ ((p ≡ approve_posts) × (r ≡ client) × ((s ≡ editor) ⊎ (s ≡ contributor)))
      ⊎ ((p ≡ view_analytics) × ((r ≡ client) ⊎ (r ≡ viewer)) × (s ≡ contributor))
unfolding builtin_permissions
permission_by_level r s p le has = ground arith
