-- ===== src/Slack/Access/Administrator.antt =====
-- The administrator of the bot (brightbean-studio/apps/slack_bot/access_service.py).
use bright_bean_paysys.Common.{
  ◌≡◌, refl, ap, ◌∙◌, ◌⊎◌, inl, inr, true, false, ◌||◌, Option, none, some, List, [], ◌∷◌, ◌++◌,
  arith, any, find, if◌then◌else◌, Bool-cases,
}
use bright_bean_paysys.Common.Rows.{update_where}
use bright_bean_paysys.Common.Lookup.{find-append_none, any-Memᴰ, find-IsFound}
use bright_bean_paysys.ApiKeys.Token.{Codes, same}
use bright_bean_paysys.ApiKeys.Token.RoundTrip.{same_iff}
use bright_bean_paysys.Slack.Directory.{
  active, BotAdministrator, AuditAction, admin_bootstrapped, admin_updated, AuditMetadata,
  no_metadata, previous_admin, Tables, system_actor,
}
use bright_bean_paysys.Slack.Access.{
  AdminAction, created, already_active, updated, is_admin_of, create_admin, save_admin,
  ensure_admin_access, is_user_approved, configure_found, configure_administrator, audit, act,
  grant_action,
}
use bright_bean_paysys.Slack.Access.Laws.{same_self, is_pair, audit-approvals, act_approvals}

abbrev admin_row : Codes → Codes → BotAdministrator
admin_row w u = record { workspace_id = w; slack_user_id = u; status = active }

-- The row of another workspace is found as before.
find-save_other :
    (w u w' : Codes) (xs : List BotAdministrator)
    → same w w' ≡ false
    → find
        (is_admin_of w')
        (update_where (is_admin_of w) (λ a. record a { slack_user_id = u; status = active }) xs)
      ≡ find (is_admin_of w') xs
find-save_other w u w' [] o = refl
find-save_other w u w' (x ∷ xs) o = elim (Bool-cases (is_admin_of w x)) [
  | inl e ↦
      let d : x.workspace_id ≡ w = (same_iff x.workspace_id w).0 e in
      rw (d, same_self w, o) (find-save_other w u w' xs o)
  | inr e ↦ rw e (ap (λ o. if is_admin_of w' x then some x else o) (find-save_other w u w' xs o))
]

find-save_same :
    (w u : Codes) (xs : List BotAdministrator)
    → any (is_admin_of w) xs ≡ true
    → find
        (is_admin_of w)
        (update_where (is_admin_of w) (λ a. record a { slack_user_id = u; status = active }) xs)
      ≡ some (admin_row w u)
find-save_same w u [] h = cc
find-save_same w u (x ∷ xs) h = elim (Bool-cases (is_admin_of w x)) [
  | inl e ↦
      let d : x.workspace_id ≡ w = (same_iff x.workspace_id w).0 e in
      rw (d, same_self w) (ground (arith, same_self w))
  | inr e ↦ rw (e, e) (find-save_same w u xs (rw e at h))
]

-- The administrator of a workspace after a call.
pub record IsConfigured (w u : Codes) (s : Tables) (x : AdminAction × Tables) : Type 0 where
  pub row : BotAdministrator
  pub found : find (is_admin_of w) x.1.administrators ≡ some row
  pub is_named : row.slack_user_id ≡ u
  pub others :
      (w' : Codes)
      → same w w' ≡ false
      → find (is_admin_of w') x.1.administrators ≡ find (is_admin_of w') s.administrators
  pub approvals :
      ((x.0 ≡ already_active) × (x.1 ≡ s))
      ⊎ (row.status ≡ active)
        × ((w' u' : Codes)
            → is_user_approved w' u' x.1 ≡ (is_user_approved w' u' s || is_pair w u w' u'))

ensure_admin_access-administrators :
    (w u : Codes) (s : Tables) → (ensure_admin_access w u s).administrators ≡ s.administrators
unfolding ensure_admin_access grant_action act
ensure_admin_access-administrators w u s = ground arith

find-create_other :
    (w u w' : Codes) (xs : List BotAdministrator)
    → same w w' ≡ false
    → find (is_admin_of w') (xs ++ (admin_row w u ∷ [])) ≡ find (is_admin_of w') xs
find-create_other w u w' [] o = rw o refl
find-create_other w u w' (x ∷ xs) o =
    ap (λ o. if is_admin_of w' x then some x else o) (find-create_other w u w' xs o)

find-create_same :
    (w u : Codes) (xs : List BotAdministrator)
    → find (is_admin_of w) xs ≡ none
    → find (is_admin_of w) (xs ++ (admin_row w u ∷ [])) ≡ some (admin_row w u)
find-create_same w u xs e =
    find-append_none (is_admin_of w) xs (admin_row w u ∷ []) e ∙ rw (same_self w) refl

ensured_approvals :
    (w u w' u' : Codes) (s t : Tables)
    → is_user_approved w' u' t ≡ is_user_approved w' u' s
    → is_user_approved w' u' (ensure_admin_access w u t)
      ≡ (is_user_approved w' u' s || is_pair w u w' u')
unfolding ensure_admin_access
ensured_approvals w u w' u' s t e =
    act_approvals w u system_actor w' u' t ∙ ap (λ b. b || is_pair w u w' u') e

create_admin-approvals :
    (w u w' u' : Codes) (s : Tables)
    → is_user_approved w' u' (create_admin w u s) ≡ is_user_approved w' u' s
unfolding is_user_approved
create_admin-approvals w u w' u' s = refl

save_admin-approvals :
    (w u w' u' : Codes) (s : Tables)
    → is_user_approved w' u' (save_admin w u s) ≡ is_user_approved w' u' s
unfolding is_user_approved
save_admin-approvals w u w' u' s = refl

-- A new administrator on tables `t` that have the row, with access and an audit record.
installed :
    (w u : Codes) (s t : Tables) (a : AdminAction) (e : AuditAction) (m : AuditMetadata)
    → find (is_admin_of w) t.administrators ≡ some (admin_row w u)
    → ((w' : Codes)
        → same w w' ≡ false
        → find (is_admin_of w') t.administrators ≡ find (is_admin_of w') s.administrators)
    → ((w' u' : Codes) → is_user_approved w' u' t ≡ is_user_approved w' u' s)
    → IsConfigured w u s (a, audit w u e system_actor m (ensure_admin_access w u t))
unfolding audit
installed w u s t a e m f o p = record {
  row = admin_row w u;
  found = ap (find (is_admin_of w)) (ensure_admin_access-administrators w u t) ∙ f;
  is_named = refl;
  others = λ w' d. ap (find (is_admin_of w')) (ensure_admin_access-administrators w u t) ∙ o w' d;
  approvals = inr (
    refl,
    λ w' u'.
        audit-approvals w' u' w u e system_actor m (ensure_admin_access w u t)
        ∙ ensured_approvals w u w' u' s t (p w' u'),
  );
}

configure_found-IsConfigured :
    (w u : Codes) (o : Option BotAdministrator) (s : Tables)
    → find (is_admin_of w) s.administrators ≡ o
    → IsConfigured w u s (configure_found w u o s)
unfolding configure_found
configure_found-IsConfigured w u none s e =
    installed w u s (create_admin w u s) created admin_bootstrapped no_metadata
      (find-create_same w u s.administrators e) (λ w'. find-create_other w u w' s.administrators)
      λ w' u'. create_admin-approvals w u w' u' s
configure_found-IsConfigured w u (some a) s e = elim (Bool-cases (same a.slack_user_id u)) [
  | inl d ↦ rw d (record {
    row = a;
    found = e;
    is_named = (same_iff a.slack_user_id u).0 d;
    others = λ w' o. refl;
    approvals = inl (refl, refl);
  })
  | inr d ↦
      let (m, h) = find-IsFound (is_admin_of w) s.administrators a e in
      rw d (
        installed w u s (save_admin w u s) updated admin_updated (previous_admin a.slack_user_id)
          (find-save_same w u s.administrators (any-Memᴰ (is_admin_of w) s.administrators a m h))
          (λ w'. find-save_other w u w' s.administrators) λ w' u'. save_admin-approvals w u w' u' s)
]

-- After a call the administrator row of the workspace names the given user, and that of every other
-- workspace is as before. Either nothing changed, because the row named the user already, whatever
-- its status, or the row is active and exactly the approval of the user in the workspace is added.
pub configure_administrator-IsConfigured :
    (w u : Codes) (s : Tables) → IsConfigured w u s (configure_administrator w u s)
unfolding configure_administrator
configure_administrator-IsConfigured w u s = configure_found-IsConfigured w u _ s refl
