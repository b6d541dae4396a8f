-- ===== src/Slack/Authorization/Laws.antt =====
-- Who gets a context (brightbean-studio/apps/slack_bot/authorization.py).
use bright_bean_paysys.Common.{
  ℕ, ◌≡◌, refl, ◌⊎◌, ◌↔◌, true, false, ◌&&◌, Option, none, some, List, [], ◌∷◌, Memᴰ, is_empty, ok,
  then_ok, arith, subst, sym, ok-injective, ap, Memᴰ-filter,
}
use mathlib.Core.List.Memᴰ
use mathlib.Core.List.Memᴰ.{head, tail}
use bright_bean_paysys.Common.Lookup.{
  bind_ok, raise_if-ok, raise_if-passed, find-IsFound, any-IsFound, Memᴰ-of_filter,
}
use bright_bean_paysys.Store.{Workspace, SocialAccount}
use bright_bean_paysys.Members.Roles.{WorkspaceMembership}
use bright_bean_paysys.Members.Services.{OrgMembership}
use bright_bean_paysys.ApiKeys.Token.{Codes, same}
use bright_bean_paysys.ApiKeys.Token.RoundTrip.{same_iff}
use bright_bean_paysys.ApiKeys.Scope.{account_ids}
use bright_bean_paysys.Slack.Directory.{
  ErrorCode, SlackAnalyticsRequest, ToolContext, BrightbeanUser, SlackChannelMapping,
  SlackUserMapping, Tables,
}
use bright_bean_paysys.Slack.Authorization.{
  is_usable, or_raise, can_view_analytics, usable_accounts, context_of, context_for_user,
  context_in_workspace, resolve_tool_context,
}

-- What is true of the user and the workspace of a context.
pub record IsInsider (ws : Workspace) (user : BrightbeanUser) (s : Tables) : Type 0 where
  pub active : user.is_active ≡ true
  pub org_row : OrgMembership
  pub org_found : Memᴰ org_row s.org_memberships
  pub org_keys : (org_row.user ≡ user.id) × (org_row.organization ≡ ws.organization_id)
  pub row : WorkspaceMembership
  pub found : Memᴰ row s.memberships
  pub keys : (row.user ≡ user.id) × (row.workspace_id ≡ ws.id)
  pub permitted : can_view_analytics row ≡ true

-- Everything a context rests on.
pub record IsAuthorized (allowed : Codes) (r : SlackAnalyticsRequest) (s : Tables) (c : ToolContext)
    : Type 0 where
  pub team : (is_empty allowed ≡ true) ⊎ (r.team_id ≡ allowed)
  pub channel : SlackChannelMapping
  pub channel_found : Memᴰ channel s.channel_mappings
  pub channel_keys : (channel.team_id ≡ r.team_id) × (channel.channel_id ≡ r.channel_id)
  pub open_workspace : channel.workspace.is_archived ≡ false
  pub mapping : SlackUserMapping
  pub mapping_found : Memᴰ mapping s.user_mappings
  pub mapping_keys : (mapping.slack_user_id ≡ r.user_id) × (mapping.team_id ≡ r.team_id)
  pub insider : IsInsider channel.workspace mapping.user s
  pub context : c ≡ context_of r channel.workspace mapping.user s

or_raise-ok {ℓ} :
    {A : Type ℓ} (e : ErrorCode) (o : Option A) {a : A} → or_raise e o ≡ ok a → o ≡ some a
or_raise-ok e none h = cc
or_raise-ok e (some x) h = cc

and_same : (a b c d : Codes) → (same a b && same c d) ≡ true → (a ≡ b) × (c ≡ d)
and_same a b c d h = ground (arith, same_iff a b, same_iff c d)

context_for_user-IsInsider :
    (r : SlackAnalyticsRequest) (ws : Workspace) (user : BrightbeanUser) (s : Tables)
    {c : ToolContext}
    → context_for_user r ws user s ≡ ok c
    → IsInsider ws user s × (c ≡ context_of r ws user s)
unfolding context_for_user
context_for_user-IsInsider r ws user s h =
    let (a, h1) = then_ok _ _ h in
    let (b, h2) = then_ok _ _ h1 in
    let (m, found, h3) = bind_ok _ _ h2 in
    let (p, h4) = then_ok _ _ h3 in
    let (o, o_in, o_keys) = any-IsFound _ _ (raise_if-ok _ _ b) in
    let (m_in, m_keys) = find-IsFound _ _ m (or_raise-ok _ _ found) in
    (
      record {
        active = raise_if-ok _ _ a;
        org_row = o;
        org_found = o_in;
        org_keys = grind arith;
        row = m;
        found = m_in;
        keys = grind arith;
        permitted = raise_if-ok _ _ p;
      },
      sym (ok-injective h4),
    )

pub resolve_tool_context-IsAuthorized :
    (allowed : Codes) (r : SlackAnalyticsRequest) (s : Tables) {c : ToolContext}
    → resolve_tool_context allowed r s ≡ ok c
    → IsAuthorized allowed r s c
unfolding resolve_tool_context context_in_workspace
resolve_tool_context-IsAuthorized allowed r s {c} h =
    let (t, h1) = then_ok _ _ h in
    let (m, found, h2) = bind_ok _ _ h1 in
    let (a, h3) = then_ok _ _ h2 in
    let (u, u_found, h4) = bind_ok _ _ h3 in
    let (m_in, m_keys) = find-IsFound _ _ m (or_raise-ok _ _ found) in
    let (u_in, u_keys) = find-IsFound _ _ u (or_raise-ok _ _ u_found) in
    let (inside, eq_) = context_for_user-IsInsider r m.workspace u.user s h4 in
    record {
      team = ground (arith, raise_if-ok _ _ t, same_iff r.team_id allowed);
      channel = m;
      channel_found = m_in;
      channel_keys = and_same _ _ _ _ m_keys;
      open_workspace = raise_if-passed _ _ a;
      mapping = u;
      mapping_found = u_in;
      mapping_keys = and_same _ _ _ _ u_keys;
      insider = inside;
      context = eq_;
    }

Memᴰ-account_ids :
    (k : ℕ) (xs : List SocialAccount)
    → Memᴰ k (account_ids xs)
    → (a : SocialAccount) × Memᴰ a xs × (a.id ≡ k)
Memᴰ-account_ids k [] h = absurd (Memᴰ.not-nil h)
Memᴰ-account_ids k (x ∷ xs) (head d) = (x, head refl, sym d)
Memᴰ-account_ids k (x ∷ xs) (tail h) =
    let (a, a_in, e) = Memᴰ-account_ids k xs h in (a, tail a_in, e)

account_ids-Memᴰ :
    (a : SocialAccount) (xs : List SocialAccount) → Memᴰ a xs → Memᴰ a.id (account_ids xs)
account_ids-Memᴰ a [] h = absurd (Memᴰ.not-nil h)
account_ids-Memᴰ a (x ∷ xs) (head d) = head (ap (λ b. b.id) d)
account_ids-Memᴰ a (x ∷ xs) (tail h) = tail (account_ids-Memᴰ a xs h)

-- An account that a context may read: one of its workspace, connected or with a token that expires
-- soon.
pub record IsReadable (s : Tables) (c : ToolContext) (k : ℕ) : Type 0 where
  pub account : SocialAccount
  pub found : Memᴰ account s.social_accounts
  pub key : account.id ≡ k
  pub own : account.workspace_id ≡ c.workspace_id
  pub usable : is_usable account.connection_status ≡ true

context_of-IsReadable :
    (r : SlackAnalyticsRequest) (ws : Workspace) (user : BrightbeanUser) (s : Tables) (k : ℕ)
    → let c = context_of r ws user s in Memᴰ k c.allowed_account_ids ↔ IsReadable s c k
context_of-IsReadable r ws user s k = (
  λ h.
      let (a, a_in, e) = Memᴰ-account_ids k _ h in
      let (found, test) = Memᴰ-of_filter _ a s.social_accounts a_in in
      record { account = a; found = found; key = e; own = ground arith; usable = ground arith },
  λ h.
      subst (λ i. Memᴰ i (account_ids (usable_accounts ws s.social_accounts))) h.key
        (account_ids-Memᴰ h.account _
          (Memᴰ-filter _ h.account s.social_accounts (grind (arith, h.own, h.usable)) h.found)),
)

-- The accounts of a context are the connected ones of its workspace, those and no others.
pub resolve_tool_context-accounts :
    (allowed : Codes) (r : SlackAnalyticsRequest) (s : Tables) (c : ToolContext) (k : ℕ)
    → resolve_tool_context allowed r s ≡ ok c
    → Memᴰ k c.allowed_account_ids ↔ IsReadable s c k
resolve_tool_context-accounts allowed r s c k h =
    let a = resolve_tool_context-IsAuthorized allowed r s h in
    subst (λ d. Memᴰ k d.allowed_account_ids ↔ IsReadable s d k) (sym a.context)
      (context_of-IsReadable r a.channel.workspace a.mapping.user s k)
