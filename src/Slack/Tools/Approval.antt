-- ===== src/Slack/Tools/Approval.antt =====
-- What validation of the calls of a response shows (brightbean-studio/apps/slack_bot/
-- tool_execution.py).
use bright_bean_paysys.Common.{
  suc, ◌≡◌, refl, sym, ap, subst, inl, inr, Option, none, some, List, [], ◌∷◌, length, All, Result,
  ok, Option-cases, ok-injective,
}
use bright_bean_paysys.Common.Lookup.{bind_ok}
use bright_bean_paysys.Slack.Directory.{ErrorCode}
use bright_bean_paysys.Slack.Llm.{LlmToolCall}
use bright_bean_paysys.Slack.Tools.{RegisteredTool, get, ToolOrchestrator}
use bright_bean_paysys.Slack.Tools.Execution.{
  ValidatedCall, checked, checked_by, validate_call, validate_calls,
}

-- The tool of the call is the registered one of its name, and the arguments passed its check.
pub record IsApproved (o : ToolOrchestrator) (v : ValidatedCall) : Type 0 where
  pub registered : get v.call.name o.registry ≡ some v.tool
  pub validated : v.tool.model_validate v.call.arguments ≡ some v.arguments

checked_by-IsApproved :
    (o : ToolOrchestrator) (c : LlmToolCall) (t : Option RegisteredTool) (v : ValidatedCall)
    → get c.name o.registry ≡ t
    → checked_by c t ≡ ok v
    → IsApproved o v
checked_by-IsApproved o c none v g h = cc
checked_by-IsApproved o c (some tool) v g h =
    elim (Option-cases (tool.model_validate c.arguments)) [
      | inl e ↦
          let h' : ◌≡◌ {A = Result ErrorCode ValidatedCall} (checked c tool none) (ok v) =
            rw e at h in
          cc
      | inr (args, e) ↦
          let d : record { call = c; tool = tool; arguments = args } ≡ v =
            ok-injective (rw e at h) in
          rw (sym d) (record { registered = g; validated = e })
    ]

pub validate_calls-IsApproved :
    (o : ToolOrchestrator) (cs : List LlmToolCall) (vs : List ValidatedCall)
    → validate_calls o.registry cs ≡ ok vs
    → All (IsApproved o) vs × (length vs ≡ length cs)
unfolding validate_calls validate_call
validate_calls-IsApproved o [] vs h =
    subst (λ us. All (IsApproved o) us × (length us ≡ 0)) {x = []} (ok-injective h) (tt, refl)
validate_calls-IsApproved o (c ∷ cs) vs h =
    let (v, hv, h1) = bind_ok _ _ h in
    let (ws, hs, h2) = bind_ok _ _ h1 in
    let rest = validate_calls-IsApproved o cs ws hs in
    subst (λ us. All (IsApproved o) us × (length us ≡ suc (length cs))) {x = v ∷ ws}
      (ok-injective h2) ((checked_by-IsApproved o c _ v refl hv, rest.0), ap suc rest.1)
