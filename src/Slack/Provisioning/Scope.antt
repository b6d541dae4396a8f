-- ===== src/Slack/Provisioning/Scope.antt =====
-- What provisioning may change, however it ends (brightbean-studio/apps/slack_bot/
-- access_provisioning.py).
use bright_bean_paysys.Common.{
  ℕ, ◌≡◌, refl, ap, ◌∙◌, ◌⊎◌, inl, inr, Bool, true, false, none, List, [], ◌∷◌, ◌++◌, arith, any,
  find, Bool-cases, ok, Result-cases, then_ok,
}
use bright_bean_paysys.Common.Lookup.{raise_if-ok}
use bright_bean_paysys.Store.{Workspace}
use bright_bean_paysys.Members.Roles.{WorkspaceRole}
use bright_bean_paysys.Members.Services.{OrgRole}
use bright_bean_paysys.ApiKeys.Token.{Codes}
use bright_bean_paysys.Slack.Directory.{BrightbeanUser, Tables, is_access_of}
use bright_bean_paysys.Slack.Authorization.{is_member_of, resolve_tool_context}
use bright_bean_paysys.Slack.Access.{
  GrantAction, granted, already_approved, restored, is_user_approved, grant_action, act,
}
use bright_bean_paysys.Slack.Access.Laws.{is_pair, act_approvals}
use bright_bean_paysys.Slack.Provisioning.{
  Grant, is_active_admin, Present, present, with_chain, appended_unless, diagnostic, has_empty_id,
  is_expected, may_view, grant_access, provision, who_and_where, grant_slack_analytics_access,
}

-- A table as it was, or with one more row at its end.
abbrev pub Grows {ℓ} : {A : Type 0} → (A → Type ℓ) → List A → List A → Type ℓ
Grows {A = A} P before after =
    (after ≡ before) ⊎ ((row : A) × (after ≡ before ++ (row ∷ [])) × P row)

-- What a call may have done to the tables: rows of the lowest roles for the user of the target.
pub record IsScoped (g : Grant) (s t : Tables) : Type 0 where
  pub users : t.users ≡ s.users
  pub social_accounts : t.social_accounts ≡ s.social_accounts
  pub channel_mappings : t.channel_mappings ≡ s.channel_mappings
  pub administrators : t.administrators ≡ s.administrators
  pub org_memberships : Grows (λ m. m.org_role ≡ OrgRole.member) s.org_memberships t.org_memberships
  pub memberships :
      Grows
        (λ m. (m.workspace_role ≡ WorkspaceRole.viewer) × (m.custom_role ≡ none))
        s.memberships
        t.memberships
  pub user_mappings :
      Grows
        (λ m. (m.slack_user_id ≡ g.target_slack_user_id) × (m.team_id ≡ g.team_id))
        s.user_mappings
        t.user_mappings
  pub approvals :
      (w u : Codes)
      → is_pair g.team_id g.target_slack_user_id w u ≡ false
      → is_user_approved w u t ≡ is_user_approved w u s

same-IsScoped : (g : Grant) (s : Tables) → IsScoped g s s
same-IsScoped g s = record {
  users = refl;
  social_accounts = refl;
  channel_mappings = refl;
  administrators = refl;
  org_memberships = inl refl;
  memberships = inl refl;
  user_mappings = inl refl;
  approvals = λ w u d. refl;
}

appended_unless-Grows {ℓ} :
    {A : Type 0} (P : A → Type ℓ) (b : Bool) (row : A) (rows : List A)
    → P row
    → Grows P rows (appended_unless b row rows)
appended_unless-Grows P true row rows p = inl refl
appended_unless-Grows P false row rows p = inr (row, refl, p)

chained-IsScoped :
    (key : ℕ) (g : Grant) (ws : Workspace) (user : BrightbeanUser) (p : Present) (s : Tables)
    → IsScoped g s (with_chain key g ws user p s)
unfolding with_chain is_user_approved
chained-IsScoped key g ws user p s = record {
  users = refl;
  social_accounts = refl;
  channel_mappings = refl;
  administrators = refl;
  org_memberships = appended_unless-Grows _ p.org _ s.org_memberships refl;
  memberships = appended_unless-Grows _ p.member _ s.memberships (refl, refl);
  user_mappings = appended_unless-Grows _ p.mapping _ s.user_mappings (refl, refl);
  approvals = λ w u d. refl;
}

-- An action on an access writes no other table.
act-accesses :
    (a : GrantAction) (w u by : Codes) (t : Tables)
    → act a w u by t ≡ record t { accesses = (act a w u by t).accesses }
unfolding act
act-accesses granted w u by t = refl
act-accesses already_approved w u by t = refl
act-accesses restored w u by t = refl

with_accesses-IsScoped :
    (g : Grant) (s t v : Tables)
    → v ≡ record t { accesses = v.accesses }
    → IsScoped g s t
    → ((w u : Codes)
        → is_pair g.team_id g.target_slack_user_id w u ≡ false
        → is_user_approved w u v ≡ is_user_approved w u t)
    → IsScoped g s v
with_accesses-IsScoped g s t v e h a = record {
  users = ap (λ x. x.users) e ∙ h.users;
  social_accounts = ap (λ x. x.social_accounts) e ∙ h.social_accounts;
  channel_mappings = ap (λ x. x.channel_mappings) e ∙ h.channel_mappings;
  administrators = ap (λ x. x.administrators) e ∙ h.administrators;
  org_memberships = rw (ap (λ x. x.org_memberships) e) h.org_memberships;
  memberships = rw (ap (λ x. x.memberships) e) h.memberships;
  user_mappings = rw (ap (λ x. x.user_mappings) e) h.user_mappings;
  approvals = λ w u d. a w u d ∙ h.approvals w u d;
}

acted-IsScoped :
    (g : Grant) (s t : Tables)
    → IsScoped g s t
    → IsScoped g s (
        act
          (grant_action (find (is_access_of g.team_id g.target_slack_user_id) t.accesses))
          g.team_id
          g.target_slack_user_id
          g.approving_slack_user_id
          t)
acted-IsScoped g s t h =
    with_accesses-IsScoped g s t _
      (act-accesses (grant_action (find (is_access_of g.team_id g.target_slack_user_id) t.accesses))
        g.team_id g.target_slack_user_id g.approving_slack_user_id t)
      h
      λ w u d.
        act_approvals g.team_id g.target_slack_user_id g.approving_slack_user_id w u t
        ∙ rw d (ground arith)

grant_access-IsScoped :
    (allowed : Codes) (g : Grant) (ws : Workspace) (user : BrightbeanUser) (p : Present)
    (chained s : Tables)
    → IsScoped g s chained
    → IsScoped g s (grant_access allowed g ws user p chained s).1
unfolding grant_access
grant_access-IsScoped allowed g ws user p chained s h = elim (Bool-cases (has_empty_id g)) [
  | inl e ↦ rw e (same-IsScoped g s)
  | inr e ↦
      let t =
        act (grant_action (find (is_access_of g.team_id g.target_slack_user_id) chained.accesses))
          g.team_id g.target_slack_user_id g.approving_slack_user_id chained in
      elim (Bool-cases (is_expected ws user (resolve_tool_context allowed (diagnostic g) t))) [
        | inl x ↦ rw (e, x) (acted-IsScoped g s chained h)
        | inr x ↦ rw (e, x) (same-IsScoped g s)
      ]
]

provision-IsScoped :
    (allowed : Codes) (key : ℕ) (g : Grant) (ws : Workspace) (user : BrightbeanUser) (s : Tables)
    → IsScoped g s (provision allowed key g ws user s).1
unfolding provision
provision-IsScoped allowed key g ws user s =
    let p = present g ws user s in
    let chained = with_chain key g ws user p s in
    let h = chained-IsScoped key g ws user p s in
    elim (Bool-cases (may_view (find (is_member_of user.id ws) chained.memberships))) [
      | inl e ↦ rw e (grant_access-IsScoped allowed g ws user p chained s h)
      | inr e ↦ rw e h
    ]

-- The approving user is an active administrator when steps 1 to 3 go through.
who_and_where-admin :
    (g : Grant) (s : Tables) {x : Workspace × BrightbeanUser}
    → who_and_where g s ≡ ok x
    → any (is_active_admin g.team_id g.approving_slack_user_id) s.administrators ≡ true
unfolding who_and_where
who_and_where-admin g s h = raise_if-ok _ _ (then_ok _ _ h).0

-- Whoever asks and however it ends, a call touches no user, account, channel or administrator, adds
-- at most one organization membership as a member, one workspace membership as a viewer and one
-- mapping of the target, changes nobody else's approval, and changes nothing at all unless the
-- approving user is an active administrator of the bot in the team.
pub grant_slack_analytics_access-IsScoped :
    (allowed : Codes) (key : ℕ) (g : Grant) (s : Tables)
    → let t = (grant_slack_analytics_access allowed key g s).1 in
      IsScoped g s t
      × ((t ≡ s)
          ⊎ (any (is_active_admin g.team_id g.approving_slack_user_id) s.administrators ≡ true))
unfolding grant_slack_analytics_access
grant_slack_analytics_access-IsScoped allowed key g s = elim (Result-cases (who_and_where g s)) [
  | inl ((ws, user), e) ↦
      rw e (provision-IsScoped allowed key g ws user s, inr (who_and_where-admin g s e))
  | inr (why, e) ↦ rw e (same-IsScoped g s, inl refl)
]
