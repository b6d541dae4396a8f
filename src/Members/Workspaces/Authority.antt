-- ===== src/Members/Workspaces/Authority.antt =====
-- Nobody changes a member's workspaces beyond their own level there (brightbean-studio/apps/members/
-- services.py).
use bright_bean_paysys.Common.{
  ℕ, ◌≤◌, ◌≡◌, refl, true, not, ◌&&◌, some, List, [], ◌∷◌, ◌++◌, arith, ◌==◌, ==_iff, ◌≢◌, ◌⊎◌,
  Option, none, ◌∙◌, ap, Memᴰ, All, any, Bool-cases, Option-cases, inl, inr, ok, sym, subst,
}
use mathlib.Core.List.Memᴰ
use mathlib.Core.List.Memᴰ.{head, tail}
use bright_bean_paysys.Common.Lookup.{All-Memᴰ, Memᴰ-of_map, Memᴰ-of_filter}
use mathlib.Core.Option.{some_inj}
use bright_bean_paysys.Members.Roles.{WorkspaceRole}
use bright_bean_paysys.Members.Services.{
  Assigned, Assignment, Directory, requested_ws_level, ws_level, inviter_workspace_level,
  is_org_workspace, role_or_viewer,
}
use bright_bean_paysys.Members.Services.Authority.{IsGrantable}
use bright_bean_paysys.Members.Workspaces.Given.{is_current-user}
use bright_bean_paysys.Members.Workspaces.Desired.{HasRole, keys-HasRole, rows_of_update}
use bright_bean_paysys.Members.Workspaces.{
  IsTouchable, ws_level-injective, role_for, desired_keys, is_current, regranted, new_assigned,
  update_workspace_assignments, update_workspace_assignments-IsGrantable,
}

-- A row of before the change stands in the rows of after it, or is one of the member's in the
-- organization whose role is wanted otherwise.
StandsOr : ℕ → ℕ → List Assignment → Directory → Assigned → List Assigned → Type 0
StandsOr org user as_ d m rows =
    Memᴰ m rows ⊎ ((is_current user org d m ≡ true) × (role_for m.workspace_id as_ ≢ some m.role))

stands_later :
    (org user : ℕ) (as_ : List Assignment) (d : Directory) (m y : Assigned) (rows : List Assigned)
    → StandsOr org user as_ d m rows
    → StandsOr org user as_ d m (y ∷ rows)
unfolding StandsOr
stands_later org user as_ d m y rows (inl s) = inl (tail s)
stands_later org user as_ d m y rows (inr c) = inr c

regranted-StandsOr :
    (org user : ℕ) (as_ : List Assignment) (d : Directory) (ms : List Assigned) (m : Assigned)
    → Memᴰ m ms
    → StandsOr org user as_ d m (regranted org user as_ d ms)
unfolding regranted StandsOr
regranted-StandsOr org user as_ d [] m m_in = absurd (Memᴰ.not-nil m_in)
regranted-StandsOr org user as_ d (x ∷ ms) m (head e) =
    elim (Bool-cases (is_current user org d m)) [
      | inr c ↦ rw (sym e, c) (inl (head refl))
      | inl c ↦ elim (Option-cases (role_for m.workspace_id as_)) [
        | inl n ↦ inr (c, λ w. let w' = rw n at w in cc)
        | inr (q, n) ↦ elim (Bool-cases (ws_level q == ws_level m.role)) [
          | inl l ↦
              let same =
                ws_level-injective q m.role ((==_iff (ws_level q) (ws_level m.role)).0 l) in
              rw (sym e, c, n) (inl (head (ap (λ r. record m { role = r }) (sym same))))
          | inr l ↦ inr (
            c,
            λ w.
                let same : q ≡ m.role = some_inj.0 (sym n ∙ w) in
                let level = ap ws_level same in
                ground (arith, ==_iff (ws_level q) (ws_level m.role)),
          )
        ]
      ]
    ]
regranted-StandsOr org user as_ d (x ∷ ms) m (tail m_in) =
    let rest = regranted-StandsOr org user as_ d ms m m_in in
    elim (Bool-cases (is_current user org d x)) [
      | inl e ↦ elim (Option-cases (role_for x.workspace_id as_)) [
        | inl n ↦ rw (e, n) rest
        | inr (q, n) ↦ rw (e, n) (stands_later org user as_ d m (record x { role = q }) _ rest)
      ]
      | inr e ↦ rw e (stands_later org user as_ d m x _ rest)
    ]

-- A row of after the change was there before, or is one of the member's with the desired role.
NewOr : ℕ → List Assignment → List Assigned → Assigned → Type 0
NewOr user as_ ms m = Memᴰ m ms ⊎ ((m.user ≡ user) × (role_for m.workspace_id as_ ≡ some m.role))

new_later :
    (user : ℕ) (as_ : List Assignment) (ms : List Assigned) (y m : Assigned)
    → NewOr user as_ ms m
    → NewOr user as_ (y ∷ ms) m
unfolding NewOr
new_later user as_ ms y m (inl s) = inl (tail s)
new_later user as_ ms y m (inr c) = inr c

regranted-NewOr :
    (org user : ℕ) (as_ : List Assignment) (d : Directory) (ms : List Assigned) (m : Assigned)
    → Memᴰ m (regranted org user as_ d ms)
    → NewOr user as_ ms m
unfolding regranted NewOr
regranted-NewOr org user as_ d [] m m_in = absurd (Memᴰ.not-nil m_in)
regranted-NewOr org user as_ d (x ∷ ms) m m_in =
    let rest = regranted-NewOr org user as_ d ms m in
    elim (Bool-cases (is_current user org d x)) [
      | inr e ↦ untouched rest (rw e at m_in)
      | inl e ↦ elim (Option-cases (role_for x.workspace_id as_)) [
        | inl n ↦ new_later user as_ ms x m (rest (rw (e, n) at m_in))
        | inr (q, n) ↦ changed rest q e n (rw (e, n) at m_in)
      ]
    ]
  where
    untouched :
        (Memᴰ m (regranted org user as_ d ms) → NewOr user as_ ms m)
        → Memᴰ m (x ∷ regranted org user as_ d ms)
        → NewOr user as_ (x ∷ ms) m
    untouched rest (head d) = inl (head d)
    untouched rest (tail k) = new_later user as_ ms x m (rest k)

    changed :
        (Memᴰ m (regranted org user as_ d ms) → NewOr user as_ ms m)
        → (q : WorkspaceRole) → is_current user org d x ≡ true
        → role_for x.workspace_id as_ ≡ some q
        → Memᴰ m (record x { role = q } ∷ regranted org user as_ d ms)
        → NewOr user as_ (x ∷ ms) m
    changed rest q e n (head d') =
        subst (λ y. NewOr user as_ (x ∷ ms) y) (sym d') (inr (is_current-user user org d x e, n))
    changed rest q e n (tail k) = new_later user as_ ms x m (rest k)

new_assigned-NewOr :
    (org user : ℕ) (as_ : List Assignment) (d : Directory) (m : Assigned)
    → All (HasRole as_) (desired_keys as_)
    → Memᴰ m (new_assigned org user as_ d)
    → NewOr user as_ d.assigned m
unfolding new_assigned NewOr HasRole
new_assigned-NewOr org user as_ d m keys m_in =
    let (k, k_in, e) =
      Memᴰ-of_map
        (λ k. record { user = user; workspace_id = k; role = role_or_viewer (role_for k as_) }) m _
        m_in in
    let (stored, t) =
      Memᴰ-of_filter
        (λ k. not (any (λ m. m.workspace_id == k && is_current user org d m) d.assigned)) k
        (desired_keys as_) k_in in
    let has = All-Memᴰ (HasRole as_) (desired_keys as_) k keys stored in
    subst (λ y. NewOr user as_ d.assigned y) e
      (inr (
        refl,
        elim (Option-cases (role_for k as_)) [
          | inl n ↦ absurd (let has' = rw n at has in cc)
          | inr (r, n) ↦ rw n refl
        ],
      ))

-- A desired role comes from an assignment of the workspace.
role_for-Memᴰ :
    (as_ : List Assignment) (k : ℕ) (r : WorkspaceRole)
    → role_for k as_ ≡ some r
    → (a : Assignment) × Memᴰ a as_ × (a.workspace_id ≡ k) × (a.role ≡ some r)
unfolding role_for
role_for-Memᴰ [] k r h = cc
role_for-Memᴰ (a ∷ rest) k r h = elim (Option-cases (role_for k rest)) [
  | inr (q, n) ↦
      let d : q ≡ r = some_inj.0 (rw n at h) in
      let (b, m, w, e) = role_for-Memᴰ rest k r (n ∙ ap some d) in (b, tail m, w, e)
  | inl n ↦ elim (Bool-cases (a.workspace_id == k)) [
    | inl e ↦ (a, head refl, (==_iff a.workspace_id k).0 e, rw (n, e) at h)
    | inr e ↦ absurd (let h' : ◌≡◌ {A = Option WorkspaceRole} none (some r) = rw (n, e) at h in cc)
  ]
]

split {ℓ} : {A : Type ℓ} (x : A) (xs ys : List A) → Memᴰ x (xs ++ ys) → Memᴰ x xs ⊎ Memᴰ x ys
split x [] ys m = inr m
split x (y ∷ xs) ys (head e) = inl (head e)
split x (y ∷ xs) ys (tail m) = elim (split x xs ys m) [ inl k ↦ inl (tail k) | inr k ↦ inr k ]

extended {ℓ} : {A : Type ℓ} (x : A) (xs ys : List A) → Memᴰ x xs → Memᴰ x (xs ++ ys)
extended x [] ys m = absurd (Memᴰ.not-nil m)
extended x (y ∷ xs) ys (head e) = head e
extended x (y ∷ xs) ys (tail m) = tail (extended x xs ys m)

-- What a change of the member's rows in an organization by an inviter may do.
pub record IsAuthorized (inviter org user : ℕ) (d d' : Directory) : Type 0 where
  pub gone :
      (m : Assigned)
      → Memᴰ m d.assigned
      → Memᴰ m d'.assigned
        ⊎ ((m.user ≡ user)
            × (ws_level m.role ≤ inviter_workspace_level inviter org m.workspace_id d))
  pub come :
      (m : Assigned)
      → Memᴰ m d'.assigned
      → Memᴰ m d.assigned
        ⊎ ((m.user ≡ user)
            × (is_org_workspace org m.workspace_id d ≡ true)
            × (ws_level m.role ≤ inviter_workspace_level inviter org m.workspace_id d))

granted_level :
    (inviter org user : ℕ) (as_ : List Assignment) (d : Directory) (m : Assigned)
    → All (IsGrantable inviter org d) as_
    → role_for m.workspace_id as_ ≡ some m.role
    → (is_org_workspace org m.workspace_id d ≡ true)
      × (ws_level m.role ≤ inviter_workspace_level inviter org m.workspace_id d)
granted_level inviter org user as_ d m g f =
    let (a, a_in, w, e) = role_for-Memᴰ as_ m.workspace_id m.role f in
    let good = All-Memᴰ (IsGrantable inviter org d) as_ a g a_in in
    let within : ws_level m.role ≤ inviter_workspace_level inviter org a.workspace_id d =
      subst (λ r. requested_ws_level r ≤ inviter_workspace_level inviter org a.workspace_id d) e
        good.within in
    (
      subst (λ k. is_org_workspace org k d ≡ true) w good.own,
      subst (λ k. ws_level m.role ≤ inviter_workspace_level inviter org k d) w within,
    )

-- After a change of a member's workspaces that goes through, each row of before is still there, or was
-- the member's with a role no higher than the inviter's in its workspace; and each row was there
-- before, or is the member's in a workspace of the organization, with a role no higher than the
-- inviter's there.
pub update_workspace_assignments-authority :
    (inviter org user : ℕ) (as_ : List Assignment) (d : Directory) {d' : Directory}
    → update_workspace_assignments inviter org user as_ d ≡ ok d'
    → IsAuthorized inviter org user d d'
unfolding StandsOr NewOr
update_workspace_assignments-authority inviter org user as_ d {d'} h =
    let (granted, touchable) = update_workspace_assignments-IsGrantable inviter org user as_ d h in
    let keys = keys-HasRole inviter org d as_ granted in
    let rows = rows_of_update inviter org user as_ d h in
    let old = regranted org user as_ d d.assigned in
    let fresh = new_assigned org user as_ d in
    record {
      gone = λ m m_in. elim (regranted-StandsOr org user as_ d d.assigned m m_in) [
        | inl s ↦ inl (subst (λ xs. Memᴰ m xs) (sym rows) (extended m old fresh s))
        | inr (c, n) ↦
            let t = All-Memᴰ (IsTouchable inviter org user as_ d) d.assigned m touchable m_in in
            inr (is_current-user user org d m c, t.within c n)
      ];
      come = λ m m_in.
          elim (or_new m (split m old fresh (subst (λ xs. Memᴰ m xs) rows m_in)) keys) [
            | inl s ↦ inl s
            | inr (u, f) ↦
                let (own, level) = granted_level inviter org user as_ d m granted f in
                inr (u, own, level)
          ];
    }
  where
    or_new :
        (m : Assigned)
        → Memᴰ m (regranted org user as_ d d.assigned) ⊎ Memᴰ m (new_assigned org user as_ d)
        → All (HasRole as_) (desired_keys as_)
        → NewOr user as_ d.assigned m
    or_new m (inl k) keys = regranted-NewOr org user as_ d d.assigned m k
    or_new m (inr k) keys = new_assigned-NewOr org user as_ d m keys k
