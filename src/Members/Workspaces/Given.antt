-- ===== src/Members/Workspaces/Given.antt =====
-- The rows that the assignments of a member ask for (brightbean-studio/apps/members/services.py).
use bright_bean_paysys.Common.{
  ℕ, ◌≡◌, refl, true, false, not, ◌&&◌, some, List, [], ◌∷◌, ◌++◌, arith, ◌==◌, ==_iff, ◌∙◌, ap,
  Memᴰ, Memᴰ-filter, Memᴰ-map, any, Bool-cases, Option-cases, inl, inr, sym,
}
use mathlib.Core.List.Memᴰ
use mathlib.Core.List.Memᴰ.{head, tail}
use bright_bean_paysys.Common.Lookup.{any-IsFound}
use bright_bean_paysys.Members.Roles.{WorkspaceRole}
use bright_bean_paysys.Members.Services.{Assigned, Assignment, Directory, role_or_viewer}
use bright_bean_paysys.Members.Workspaces.{
  role_for, desired_keys, is_current, regranted, new_assigned,
}

-- A desired workspace is among the keys.
pub keys-Memᴰ :
    (as_ : List Assignment) (a : Assignment) → Memᴰ a as_ → Memᴰ a.workspace_id (desired_keys as_)
unfolding desired_keys
keys-Memᴰ [] a m = absurd (Memᴰ.not-nil m)
keys-Memᴰ (b ∷ rest) a (head e) = head (ap (λ x. x.workspace_id) e)
keys-Memᴰ (b ∷ rest) a (tail m) = elim (Bool-cases (a.workspace_id == b.workspace_id)) [
  | inl e ↦ head ((==_iff a.workspace_id b.workspace_id).0 e)
  | inr e ↦ tail (
      Memᴰ-filter (λ k. not (k == b.workspace_id)) a.workspace_id (desired_keys rest) (rw e refl)
        (keys-Memᴰ rest a m))
]

-- The row of a user in a workspace, in the role that is desired there.
abbrev pub Given : ℕ → List Assignment → ℕ → List Assigned → Type 0
Given user as_ k rows =
    (m : Assigned) × Memᴰ m rows
    × (m.user ≡ user)
    × (m.workspace_id ≡ k)
    × (role_for k as_ ≡ some m.role)

regranted-Given :
    (org user : ℕ) (as_ : List Assignment) (d : Directory) (ms : List Assigned) (x : Assigned)
    (r : WorkspaceRole)
    → Memᴰ x ms
    → is_current user org d x ≡ true
    → role_for x.workspace_id as_ ≡ some r
    → Memᴰ (record x { role = r }) (regranted org user as_ d ms)
unfolding regranted
regranted-Given org user as_ d [] x r m c f = absurd (Memᴰ.not-nil m)
regranted-Given org user as_ d (y ∷ ms) x r (head e) c f = rw (sym e, c, f) (head refl)
regranted-Given org user as_ d (y ∷ ms) x r (tail m) c f =
    let rest = regranted-Given org user as_ d ms x r m c f in
    elim (Bool-cases (is_current user org d y)) [
      | inl e ↦ elim (Option-cases (role_for y.workspace_id as_)) [
        | inl n ↦ rw (e, n) rest
        | inr (q, n) ↦ rw (e, n) (tail rest)
      ]
      | inr e ↦ rw e (tail rest)
    ]

pub is_current-user :
    (user org : ℕ) (d : Directory) (m : Assigned) → is_current user org d m ≡ true → m.user ≡ user
unfolding is_current
is_current-user user org d m h = grind (arith, ==_iff m.user user)

new_assigned-Given :
    (org user : ℕ) (as_ : List Assignment) (d : Directory) (k : ℕ) (r : WorkspaceRole)
    → Memᴰ k (desired_keys as_)
    → any (λ m. m.workspace_id == k && is_current user org d m) d.assigned ≡ false
    → role_for k as_ ≡ some r
    → Given user as_ k (new_assigned org user as_ d)
unfolding new_assigned
new_assigned-Given org user as_ d k r m n f = (
  record { user = user; workspace_id = k; role = role_or_viewer (role_for k as_) },
  Memᴰ-map (λ k. record { user = user; workspace_id = k; role = role_or_viewer (role_for k as_) }) k
      _
      (Memᴰ-filter (λ k. not (any (λ m. m.workspace_id == k && is_current user org d m) d.assigned))
        k (desired_keys as_) (rw n refl) m),
  refl,
  refl,
  rw f refl,
)

in_first {ℓ} : {A : Type ℓ} (x : A) (xs ys : List A) → Memᴰ x xs → Memᴰ x (xs ++ ys)
in_first x [] ys m = absurd (Memᴰ.not-nil m)
in_first x (y ∷ xs) ys (head e) = head e
in_first x (y ∷ xs) ys (tail m) = tail (in_first x xs ys m)

in_second {ℓ} : {A : Type ℓ} (x : A) (xs ys : List A) → Memᴰ x ys → Memᴰ x (xs ++ ys)
in_second x [] ys m = m
in_second x (y ∷ xs) ys m = tail (in_second x xs ys m)

pub key-Given :
    (org user : ℕ) (as_ : List Assignment) (d : Directory) (k : ℕ) (r : WorkspaceRole)
    → Memᴰ k (desired_keys as_)
    → role_for k as_ ≡ some r
    → Given user as_ k (regranted org user as_ d d.assigned ++ new_assigned org user as_ d)
key-Given org user as_ d k r m f =
    elim (Bool-cases (any (λ m. m.workspace_id == k && is_current user org d m) d.assigned)) [
      | inl e ↦
          let (x, x_in, t) =
            any-IsFound (λ m. m.workspace_id == k && is_current user org d m) d.assigned e in
          let w : x.workspace_id ≡ k = grind (arith, ==_iff x.workspace_id k) in
          let c : is_current user org d x ≡ true = ground arith in
          let f' : role_for x.workspace_id as_ ≡ some r = ap (λ j. role_for j as_) w ∙ f in
          (
            record x { role = r },
            in_first _ _ _ (regranted-Given org user as_ d d.assigned x r x_in c f'),
            is_current-user user org d x c,
            w,
            f,
          )
      | inr e ↦
          let (m', m_in, u, w, g) = new_assigned-Given org user as_ d k r m e f in
          (m', in_second m' (regranted org user as_ d d.assigned) _ m_in, u, w, g)
    ]
