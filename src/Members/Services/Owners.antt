-- ===== src/Members/Services/Owners.antt =====
-- An organization keeps an owner (brightbean-studio/apps/members/services.py).
use bright_bean_paysys.Common.{
  ℕ, ◌+◌, ◌≤◌, ◌≡◌, refl, sym, subst, Bool, false, not, ◌&&◌, Option, some, List, [], ◌∷◌, arith,
  leb, ◌==◌, ==_iff, if◌then◌else◌, any, find, filter, Bool-cases, inl, inr, ok,
}
use bright_bean_paysys.Common.Rows.{update_where}
use bright_bean_paysys.Members.Services.{
  OrgRole, OrgMembership, Directory, is_owner, owner_count, update_member_org_role, remove_member,
  check_org_role, role_or_member,
}

abbrev pub has_id : ℕ → OrgMembership → Bool
has_id k n = n.id == k

-- No key occurs twice.
abbrev pub UniqueIds : List OrgMembership → Type 0
UniqueIds [] = Unit
UniqueIds (n ∷ ns) = (any (has_id n.id) ns ≡ false) × UniqueIds ns

demote : ℕ → OrgRole → List OrgMembership → List OrgMembership
demote k r = update_where (has_id k) (λ n. record n { org_role = r })

-- the row itself, as an owner of the organization
own : ℕ → OrgMembership → ℕ
own org m = if m.organization == org && is_owner (some m.org_role) then 1 else 0

demote-absent :
    (k : ℕ) (r : OrgRole) (ns : List OrgMembership) → any (has_id k) ns ≡ false → demote k r ns ≡ ns
unfolding demote
demote-absent k r [] h = refl
demote-absent k r (n ∷ ns) h = ground (arith, demote-absent k r ns)

filter-absent :
    (k : ℕ) (ns : List OrgMembership)
    → any (has_id k) ns ≡ false
    → filter (λ n. not (has_id k n)) ns ≡ ns
filter-absent k [] h = refl
filter-absent k (n ∷ ns) h = ground (arith, filter-absent k ns)

owner_count-demote :
    (org k : ℕ) (r : OrgRole) (m : OrgMembership) (ns : List OrgMembership)
    → UniqueIds ns
    → find (has_id k) ns ≡ some m
    → owner_count org ns ≤ owner_count org (demote k r ns) + own org m
unfolding owner_count own demote
owner_count-demote org k r m [] u f = cc
owner_count-demote org k r m (n ∷ ns) u f =
    let same = demote-absent k r ns in
    let (_, unique) = u in
    let rest = owner_count-demote org k r m ns unique in
    elim (Bool-cases (n.id == k)) [
      | inl e ↦ ground (arith, same, ==_iff n.id k)
      | inr e ↦ ground (arith, rest)
    ]

owner_count-remove :
    (org k : ℕ) (m : OrgMembership) (ns : List OrgMembership)
    → UniqueIds ns
    → find (has_id k) ns ≡ some m
    → owner_count org ns ≤ owner_count org (filter (λ n. not (has_id k n)) ns) + own org m
unfolding owner_count own
owner_count-remove org k m [] u f = cc
owner_count-remove org k m (n ∷ ns) u f =
    let same = filter-absent k ns in
    let (_, unique) = u in
    let rest = owner_count-remove org k m ns unique in
    elim (Bool-cases (n.id == k)) [
      | inl e ↦ ground (arith, same, ==_iff n.id k)
      | inr e ↦ ground (arith, rest)
    ]

-- the test by which both operations refuse
is_last : ℕ → OrgMembership → Directory → Bool
is_last org m d = is_owner (some m.org_role) && leb (owner_count org d.org_memberships) 1

left_over :
    (org rest : ℕ) (m : OrgMembership) (d : Directory)
    → is_last org m d ≡ false
    → 1 ≤ owner_count org d.org_memberships
    → owner_count org d.org_memberships ≤ rest + own org m
    → 1 ≤ rest
unfolding is_last own
left_over org rest m d h some_owner most = ground arith

not_last-update :
    (org : ℕ) (m : OrgMembership) (role : Option OrgRole) (caller : ℕ) (d : Directory)
    {d' : Directory}
    → update_member_org_role org m role caller d ≡ ok d'
    → (is_last org m d ≡ false)
      × (d'.org_memberships ≡ demote m.id (role_or_member role) d.org_memberships)
unfolding update_member_org_role check_org_role is_last demote
not_last-update org m role caller d h = ground arith

not_last-remove :
    (org : ℕ) (m : OrgMembership) (removed_by : ℕ) (d : Directory) {d' : Directory}
    → remove_member org m removed_by d ≡ ok d'
    → (is_last org m d ≡ false)
      × (d'.org_memberships ≡ filter (λ n. not (has_id m.id n)) d.org_memberships)
unfolding remove_member is_last
not_last-remove org m removed_by d h = ground arith

-- A role change of a stored membership leaves an organization that has an owner with an owner.
pub update_member_org_role_keeps-owner :
    (org : ℕ) (m : OrgMembership) (role : Option OrgRole) (caller : ℕ) (d : Directory)
    {d' : Directory}
    → UniqueIds d.org_memberships
    → find (has_id m.id) d.org_memberships ≡ some m
    → 1 ≤ owner_count org d.org_memberships
    → update_member_org_role org m role caller d ≡ ok d'
    → 1 ≤ owner_count org d'.org_memberships
update_member_org_role_keeps-owner org m role caller d {d'} u f some_owner h =
    let (kept, rows) = not_last-update org m role caller d h in
    let rest = demote m.id (role_or_member role) d.org_memberships in
    subst (λ ns. 1 ≤ owner_count org ns) (sym rows)
      (left_over org (owner_count org rest) m d kept some_owner
        (owner_count-demote org m.id (role_or_member role) m d.org_memberships u f))

-- So does a removal of a stored membership.
pub remove_member_keeps-owner :
    (org : ℕ) (m : OrgMembership) (removed_by : ℕ) (d : Directory) {d' : Directory}
    → UniqueIds d.org_memberships
    → find (has_id m.id) d.org_memberships ≡ some m
    → 1 ≤ owner_count org d.org_memberships
    → remove_member org m removed_by d ≡ ok d'
    → 1 ≤ owner_count org d'.org_memberships
remove_member_keeps-owner org m removed_by d {d'} u f some_owner h =
    let (kept, rows) = not_last-remove org m removed_by d h in
    let rest = filter (λ n. not (has_id m.id n)) d.org_memberships in
    subst (λ ns. 1 ≤ owner_count org ns) (sym rows)
      (left_over org (owner_count org rest) m d kept some_owner
        (owner_count-remove org m.id m d.org_memberships u f))
