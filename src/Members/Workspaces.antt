-- ===== src/Members/Workspaces.antt =====
-- `update_workspace_assignments` of brightbean-studio/apps/members/services.py: the roles of one
-- member in the workspaces of an organization, set by an inviter, whom the views always give.
pub mod Given
pub mod Desired
pub mod Authority
use bright_bean_paysys.Common.{
  ℕ, ◌≤◌, ◌≡◌, ◌≢◌, refl, ap, Bool, true, false, not, ◌&&◌, Option, none, some, List, [], ◌∷◌, ◌++◌,
  map, arith, ◌==◌, ==_iff, ltb, if◌then◌else◌, All, any, filter, Bool-cases, inl, inr, Result, ok,
  err, ◌>>◌, raise_if,
}
use bright_bean_paysys.Members.Roles.{WorkspaceRole}
use bright_bean_paysys.Members.Services.{
  Assigned, Assignment, Directory, MemberError, outranked, ws_level, inviter_workspace_level,
  is_org_workspace, check_assignments, role_or_viewer,
}
use bright_bean_paysys.Members.Services.Authority.{
  IsGrantable, first_ok, check_assignments-IsGrantable,
}

-- `desired.get(ws)`: the last assignment of a workspace counts.
abbrev pub later_role : Option WorkspaceRole → Option WorkspaceRole → Option WorkspaceRole
later_role (some r) s = some r
later_role none s = s

unfoldable pub role_for : ℕ → List Assignment → Option WorkspaceRole
role_for ws [] = none
role_for ws (a ∷ rest) =
    let later = role_for ws rest in later_role later (if a.workspace_id == ws then a.role else none)

-- the keys of `desired`, in the order of their first assignments
unfoldable pub desired_keys : List Assignment → List ℕ
desired_keys [] = []
desired_keys (a ∷ rest) =
    a.workspace_id ∷ filter (λ k. not (k == a.workspace_id)) (desired_keys rest)

-- A row of `current`: one of the user, in a workspace of the organization that is not archived.
unfoldable pub is_current : ℕ → ℕ → Directory → Assigned → Bool
is_current user org d m = m.user == user && is_org_workspace org m.workspace_id d

-- The row goes, or gets another role.
abbrev pub differs : Option WorkspaceRole → WorkspaceRole → Bool
differs none r = true
differs (some s) r = not (ws_level s == ws_level r)

-- The test of both branches of the loop over `current_map`, which differ in their messages only.
unfoldable pub check_current :
    ℕ → ℕ → ℕ → List Assignment → Directory → List Assigned → Result MemberError (Unit {0})
unfolding is_current role_for
check_current inviter org user as_ d [] = ok tt
check_current inviter org user as_ d (m ∷ ms) =
    raise_if
      (is_current user org d m
        && differs (role_for m.workspace_id as_) m.role
        && ltb (inviter_workspace_level inviter org m.workspace_id d) (ws_level m.role))
      outranked
    >> check_current inviter org user as_ d ms

-- The rows after the removals and the role changes.
abbrev pub with_role : Option WorkspaceRole → Assigned → List Assigned → List Assigned
with_role none m rest = rest
with_role (some r) m rest = record m { role = r } ∷ rest

unfoldable pub regranted : ℕ → ℕ → List Assignment → Directory → List Assigned → List Assigned
unfolding is_current role_for
regranted org user as_ d [] = []
regranted org user as_ d (m ∷ ms) =
    let rest = regranted org user as_ d ms in
    if is_current user org d m then with_role (role_for m.workspace_id as_) m rest else m ∷ rest

-- The rows that are created, for the desired workspaces without a row.
unfoldable pub new_assigned : ℕ → ℕ → List Assignment → Directory → List Assigned
unfolding is_current role_for desired_keys
new_assigned org user as_ d =
    map (λ k. record { user = user; workspace_id = k; role = role_or_viewer (role_for k as_) })
      (filter (λ k. not (any (λ m. m.workspace_id == k && is_current user org d m) d.assigned))
        (desired_keys as_))

unfoldable pub update_workspace_assignments :
    ℕ → ℕ → ℕ → List Assignment → Directory → Result MemberError Directory
unfolding check_current regranted new_assigned
update_workspace_assignments inviter org user as_ d =
    check_assignments inviter org d as_
    >> (check_current inviter org user as_ d d.assigned
        >> ok (record d {
          assigned = regranted org user as_ d d.assigned ++ new_assigned org user as_ d;
        }))

-- The inviter may touch the row: it stays as it is, or its role is no higher than the inviter's.
pub record IsTouchable (inviter org user : ℕ) (as_ : List Assignment) (d : Directory) (m : Assigned)
    : Type 0 where
  pub within :
      is_current user org d m ≡ true
      → role_for m.workspace_id as_ ≢ some m.role
      → ws_level m.role ≤ inviter_workspace_level inviter org m.workspace_id d

pub ws_level-injective : (s r : WorkspaceRole) → ws_level s ≡ ws_level r → s ≡ r
ws_level-injective s r h = ground arith

differs-eq : (o : Option WorkspaceRole) (r : WorkspaceRole) → o ≢ some r → differs o r ≡ true
differs-eq none r h = refl
differs-eq (some s) r h = elim (Bool-cases (ws_level s == ws_level r)) [
  | inl e ↦ absurd (h (ap some (ws_level-injective s r ((==_iff (ws_level s) (ws_level r)).0 e))))
  | inr e ↦ rw e refl
]

check_current-IsTouchable :
    (inviter org user : ℕ) (as_ : List Assignment) (d : Directory) (ms : List Assigned)
    → check_current inviter org user as_ d ms ≡ ok tt
    → All (IsTouchable inviter org user as_ d) ms
unfolding check_current
check_current-IsTouchable inviter org user as_ d [] h = tt
check_current-IsTouchable inviter org user as_ d (m ∷ ms) h =
    let (here, there) = first_ok _ (check_current inviter org user as_ d ms) h in
    (
      record { within = λ c n. ground (arith, differs-eq (role_for m.workspace_id as_) m.role n) },
      check_current-IsTouchable inviter org user as_ d ms there,
    )

checks_of_update :
    (inviter org user : ℕ) (as_ : List Assignment) (d : Directory) {d' : Directory}
    → update_workspace_assignments inviter org user as_ d ≡ ok d'
    → (check_assignments inviter org d as_ ≡ ok tt)
      × (check_current inviter org user as_ d d.assigned ≡ ok tt)
unfolding update_workspace_assignments
checks_of_update inviter org user as_ d h = ground arith

-- What the checks of a change that goes through show.
pub update_workspace_assignments-IsGrantable :
    (inviter org user : ℕ) (as_ : List Assignment) (d : Directory) {d' : Directory}
    → update_workspace_assignments inviter org user as_ d ≡ ok d'
    → All (IsGrantable inviter org d) as_ × All (IsTouchable inviter org user as_ d) d.assigned
update_workspace_assignments-IsGrantable inviter org user as_ d h =
    let (granted, touched) = checks_of_update inviter org user as_ d h in
    (
      check_assignments-IsGrantable inviter org d as_ granted,
      check_current-IsTouchable inviter org user as_ d d.assigned touched,
    )
