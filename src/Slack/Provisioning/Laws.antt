-- ===== src/Slack/Provisioning/Laws.antt =====
-- What provisioning reaches, what it may touch and what it leaves behind when it fails
-- (brightbean-studio/apps/slack_bot/access_provisioning.py).
use bright_bean_paysys.Common.{
  ℕ, ◌≡◌, refl, ◌∙◌, ◌⊎◌, inl, inr, Bool, true, false, ◌||◌, arith, find, Bool-cases, Result, ok,
  err,
}
use bright_bean_paysys.Store.{Workspace}
use bright_bean_paysys.ApiKeys.Token.{Codes}
use bright_bean_paysys.Slack.Directory.{
  ErrorCode, SlackAnalyticsRequest, ToolContext, BrightbeanUser, Tables, is_access_of,
}
use bright_bean_paysys.Slack.Authorization.{
  is_member_of, resolve_tool_context, context_in_workspace, context_for_user,
}
use bright_bean_paysys.Slack.Access.{GrantAction, is_user_approved, grant_action, act}
use bright_bean_paysys.Slack.Access.Laws.{is_pair, same_self, act_approvals}
use bright_bean_paysys.Slack.Provisioning.{
  no_view_analytics, post_check_failed, ProvisioningStatus, failed, Grant, Present, present,
  with_chain, Provisioned, returned, raised, refusal, success, diagnostic, has_empty_id,
  is_expected, may_view, grant_access, provision, who_and_where, carried_out,
  grant_slack_analytics_access, Refusable,
}

abbrev pub is_success : ProvisioningStatus → Bool
is_success (failed _) = false
is_success _ = true

abbrev pub succeeds : Provisioned → Bool
succeeds raised = false
succeeds (returned r) = is_success r.status

-- A request of the target in the channel.
abbrev pub request_of : Grant → Codes → Codes → Codes → Codes → SlackAnalyticsRequest
request_of g correlation event thread text = record {
  correlation_id = correlation;
  event_id = event;
  team_id = g.team_id;
  channel_id = g.source_channel_id;
  user_id = g.target_slack_user_id;
  thread_ts = thread;
  text = text;
}

-- The user may use the bot, and every request of theirs gets a context.
pub record IsProvisioned (allowed : Codes) (g : Grant) (t : Tables) : Type 0 where
  pub approved : is_user_approved g.team_id g.target_slack_user_id t ≡ true
  pub context : ToolContext
  pub resolved :
      (correlation event thread text : Codes)
      → resolve_tool_context allowed (request_of g correlation event thread text) t ≡ ok context

diagnostic_like :
    (allowed : Codes) (g : Grant) (t : Tables) (correlation event thread text : Codes)
    → resolve_tool_context allowed (request_of g correlation event thread text) t
      ≡ resolve_tool_context allowed (diagnostic g) t
unfolding resolve_tool_context context_in_workspace context_for_user
diagnostic_like allowed g t correlation event thread text = refl

expected_context :
    (ws : Workspace) (user : BrightbeanUser) (o : Result ErrorCode ToolContext)
    → is_expected ws user o ≡ true
    → (c : ToolContext) × (o ≡ ok c)
expected_context ws user (ok c) h = (c, refl)
expected_context ws user (err e) h = cc

-- The tables after step 9.
abbrev acted : Grant → Tables → Tables
acted g t =
    act (grant_action (find (is_access_of g.team_id g.target_slack_user_id) t.accesses)) g.team_id
      g.target_slack_user_id g.approving_slack_user_id t

acted-approvals :
    (g : Grant) (w' u' : Codes) (t : Tables)
    → is_user_approved w' u' (acted g t)
      ≡ (is_user_approved w' u' t || is_pair g.team_id g.target_slack_user_id w' u')
acted-approvals g w' u' t =
    act_approvals g.team_id g.target_slack_user_id g.approving_slack_user_id w' u' t

acted-IsProvisioned :
    (allowed : Codes) (g : Grant) (ws : Workspace) (user : BrightbeanUser) (t : Tables)
    → is_expected ws user (resolve_tool_context allowed (diagnostic g) (acted g t)) ≡ true
    → IsProvisioned allowed g (acted g t)
acted-IsProvisioned allowed g ws user t h =
    let (c, e) = expected_context ws user _ h in
    record {
      approved =
          acted-approvals g g.team_id g.target_slack_user_id t
          ∙ ground (arith, same_self g.team_id, same_self g.target_slack_user_id);
      context = c;
      resolved = λ a b d f. diagnostic_like allowed g (acted g t) a b d f ∙ e;
    }

-- The parts of an outcome's correctness.
pub record IsSound (allowed : Codes) (g : Grant) (s : Tables) (x : Provisioned × Tables)
    : Type 0 where
  pub reached : succeeds x.0 ≡ true → IsProvisioned allowed g x.1
  pub undone :
      succeeds x.0 ≡ false
      → (x.1 ≡ s) ⊎ ((x.0 ≡ refusal g no_view_analytics) × (x.1.accesses ≡ s.accesses))

unchanged-IsSound :
    (allowed : Codes) (g : Grant) (s : Tables) (p : Provisioned)
    → succeeds p ≡ false
    → IsSound allowed g s (p, s)
unchanged-IsSound allowed g s p e = record { reached = λ h. cc; undone = λ _. inl refl }

success-succeeds :
    (g : Grant) (user : BrightbeanUser) (p : Present) (a : GrantAction)
    → succeeds (success g user p a) ≡ true
success-succeeds g user p GrantAction.granted = ground arith
success-succeeds g user p GrantAction.restored = ground arith
success-succeeds g user p GrantAction.already_approved = ground arith

grant_access-IsSound :
    (allowed : Codes) (g : Grant) (ws : Workspace) (user : BrightbeanUser) (p : Present)
    (chained s : Tables)
    → IsSound allowed g s (grant_access allowed g ws user p chained s)
unfolding grant_access
grant_access-IsSound allowed g ws user p chained s = elim (Bool-cases (has_empty_id g)) [
  | inl e ↦ rw e (unchanged-IsSound allowed g s raised refl)
  | inr e ↦
      elim (Bool-cases
        (is_expected ws user (resolve_tool_context allowed (diagnostic g) (acted g chained)))) [
          | inl x ↦
              rw (e, x)
                (record {
                  reached = λ _. acted-IsProvisioned allowed g ws user chained x;
                  undone = λ h.
                      let d = success-succeeds g user p (
                        grant_action (
                          find (is_access_of g.team_id g.target_slack_user_id) chained.accesses)) in
                      cc;
                })
          | inr x ↦ rw (e, x) (unchanged-IsSound allowed g s (refusal g post_check_failed) refl)
        ]
]

provision-IsSound :
    (allowed : Codes) (key : ℕ) (g : Grant) (ws : Workspace) (user : BrightbeanUser) (s : Tables)
    → IsSound allowed g s (provision allowed key g ws user s)
unfolding provision
provision-IsSound allowed key g ws user s =
    let p = present g ws user s in
    let chained = with_chain key g ws user p s in
    elim (Bool-cases (may_view (find (is_member_of user.id ws) chained.memberships))) [
      | inl e ↦ rw e (grant_access-IsSound allowed g ws user p chained s)
      | inr e ↦
          rw e (record { reached = λ h. cc; undone = λ _. inr (refl, unfold with_chain in refl) })
    ]

carried_out-IsSound :
    (allowed : Codes) (key : ℕ) (g : Grant) (s : Tables)
    (o : Refusable (Workspace × BrightbeanUser))
    → IsSound allowed g s (carried_out allowed key g s o)
carried_out-IsSound allowed key g s (err why) = unchanged-IsSound allowed g s (refusal g why) refl
carried_out-IsSound allowed key g s (ok (ws, user)) = provision-IsSound allowed key g ws user s

grant_slack_analytics_access-IsSound :
    (allowed : Codes) (key : ℕ) (g : Grant) (s : Tables)
    → IsSound allowed g s (grant_slack_analytics_access allowed key g s)
unfolding grant_slack_analytics_access
grant_slack_analytics_access-IsSound allowed key g s =
    carried_out-IsSound allowed key g s (who_and_where g s)

-- After a call that reports success the target is approved for the bot, and every request of theirs
-- in the channel is given a context.
pub grant_slack_analytics_access-IsProvisioned :
    (allowed : Codes) (key : ℕ) (g : Grant) (s : Tables)
    → succeeds (grant_slack_analytics_access allowed key g s).0 ≡ true
    → IsProvisioned allowed g (grant_slack_analytics_access allowed key g s).1
grant_slack_analytics_access-IsProvisioned allowed key g s =
    (grant_slack_analytics_access-IsSound allowed key g s).reached

-- A call that reports failure or raises leaves the tables as they were, but for a user whose role
-- may not view analytics: there only the access to the bot is certain to be as it was.
pub grant_slack_analytics_access-undone :
    (allowed : Codes) (key : ℕ) (g : Grant) (s : Tables)
    → let x = grant_slack_analytics_access allowed key g s in
      succeeds x.0 ≡ false
      → (x.1 ≡ s) ⊎ ((x.0 ≡ refusal g no_view_analytics) × (x.1.accesses ≡ s.accesses))
grant_slack_analytics_access-undone allowed key g s =
    (grant_slack_analytics_access-IsSound allowed key g s).undone
