-- ===== src/Members/Workspaces/Desired.antt =====
-- The rows after `update_workspace_assignments` (brightbean-studio/apps/members/services.py).
use bright_bean_paysys.Common.{
  ℕ, ◌≤◌, ◌≡◌, refl, Bool, true, not, some, is_some, List, [], ◌∷◌, ◌++◌, arith, ◌==◌, ==_iff, All,
  filter, Bool-cases, Option-cases, inl, inr, ok,
}
use bright_bean_paysys.Members.Services.{Assigned, Assignment, Directory, requested_ws_level}
use bright_bean_paysys.Members.Services.Authority.{IsGrantable}
use bright_bean_paysys.Members.Workspaces.Given.{Given}
use bright_bean_paysys.Members.Workspaces.{
  role_for, desired_keys, is_current, regranted, new_assigned, update_workspace_assignments,
}

-- The row, if it is one of the user in the organization, has the desired role.
pub record IsDesired (org user : ℕ) (as_ : List Assignment) (d : Directory) (m : Assigned)
    : Type 0 where
  pub desired : is_current user org d m ≡ true → role_for m.workspace_id as_ ≡ some m.role

filter-All : (P : ℕ → Type 0) (p : ℕ → Bool) (ks : List ℕ) → All P ks → All P (filter p ks)
filter-All P p [] h = tt
filter-All P p (k ∷ ks) h = elim (Bool-cases (p k)) [
  | inl e ↦ rw e (h.0, filter-All P p ks h.1)
  | inr e ↦ rw e (filter-All P p ks h.1)
]

-- a desired workspace has a role
unfoldable pub HasRole : List Assignment → ℕ → Type 0
HasRole as_ k = is_some (role_for k as_) ≡ true

later-HasRole :
    (a : Assignment) (rest : List Assignment) (k : ℕ) → HasRole rest k → HasRole (a ∷ rest) k
unfolding HasRole role_for
later-HasRole a rest k h = elim (Option-cases (role_for k rest)) [
  | inl e ↦ ground (arith, e, h)
  | inr (r, e) ↦ rw e refl
]

All-later :
    (a : Assignment) (rest : List Assignment) (ks : List ℕ)
    → All (HasRole rest) ks
    → All (HasRole (a ∷ rest)) ks
All-later a rest [] h = tt
All-later a rest (k ∷ ks) h = (later-HasRole a rest k h.0, All-later a rest ks h.1)

here-HasRole :
    (a : Assignment) (rest : List Assignment)
    → 1 ≤ requested_ws_level a.role
    → HasRole (a ∷ rest) a.workspace_id
unfolding HasRole role_for
here-HasRole a rest h = elim (Option-cases (role_for a.workspace_id rest)) [
  | inl e ↦ rw e (ground (arith, ==_iff a.workspace_id a.workspace_id))
  | inr (r, e) ↦ rw e refl
]

pub keys-HasRole :
    (inviter org : ℕ) (d : Directory) (as_ : List Assignment)
    → All (IsGrantable inviter org d) as_
    → All (HasRole as_) (desired_keys as_)
unfolding desired_keys
keys-HasRole inviter org d [] h = tt
keys-HasRole inviter org d (a ∷ rest) h =
    let rec_ = keys-HasRole inviter org d rest h.1 in
    (
      here-HasRole a rest h.0.known,
      filter-All (HasRole (a ∷ rest)) (λ k. not (k == a.workspace_id)) (desired_keys rest)
          (All-later a rest (desired_keys rest) rec_),
    )

pub rows_of_update :
    (inviter org user : ℕ) (as_ : List Assignment) (d : Directory) {d' : Directory}
    → update_workspace_assignments inviter org user as_ d ≡ ok d'
    → d'.assigned ≡ regranted org user as_ d d.assigned ++ new_assigned org user as_ d
unfolding update_workspace_assignments
rows_of_update inviter org user as_ d h = ground arith
