-- ===== src/Slack/Orchestrator/Bounds.antt =====
-- The limits of a run (brightbean-studio/apps/slack_bot/tool_execution.py), whatever the model asks
-- for, the tools answer and the clock shows.
use bright_bean_paysys.Common.{
  ℕ, ◌+◌, ◌≤◌, ◌≡◌, refl, ◌∙◌, ap, inl, inr, List, [], ◌∷◌, ◌++◌, arith, length, Bool-cases,
}
use bright_bean_paysys.ApiKeys.Token.{Codes}
use bright_bean_paysys.Slack.Directory.{ToolContext}
use bright_bean_paysys.Slack.Llm.{LlmMessage}
use bright_bean_paysys.Slack.Tools.{ToolResult, ToolOrchestrator}
use bright_bean_paysys.Slack.Tools.Execution.{
  ValidatedCall, Progress, Ended, is_succeeded, keep_result, with_executed,
}
use bright_bean_paysys.Slack.Orchestrator.{run}
use bright_bean_paysys.Slack.Orchestrator.Rule.{LoopProof, run_rule}

length-append_one {ℓ} : {A : Type ℓ} (xs : List A) (x : A) → length (xs ++ (x ∷ [])) ≡ length xs + 1
length-append_one [] x = refl
length-append_one (y ∷ xs) x = ground (arith, length-append_one xs x)

-- The variables count what was done.
pub record IsCounted (o : ToolOrchestrator) (p : Progress) : Type 0 where
  pub counted : length p.executed ≡ p.total_calls
  pub within : p.total_calls ≤ o.limits.max_total_calls
  pub kept : length p.tool_results ≤ p.total_calls

-- The limits, of a return.
pub record IsWithinLimits (o : ToolOrchestrator) (e : Ended) : Type 0 where
  pub counted : length e.executed ≡ e.result.tool_call_count
  pub within : e.result.tool_call_count ≤ o.limits.max_total_calls
  pub kept : length e.result.tool_results ≤ e.result.tool_call_count
  pub rounds : e.result.rounds ≤ o.limits.max_rounds

keep_result-counts :
    (o : ToolOrchestrator) (context : ToolContext) (p : Progress) (round : ℕ) (v : ValidatedCall)
    (r : ToolResult)
    → length p.tool_results ≤ p.total_calls
    → length (keep_result o round v r (with_executed context round v p)).tool_results
      ≤ p.total_calls + 1
unfolding keep_result
keep_result-counts o context p round v r h = elim (Bool-cases (is_succeeded r.status)) [
  | inl e ↦
      let l = length-append_one p.tool_results (record {
        tool_name = v.call.name;
        tool_call_id = v.call.id;
        result = r;
        round_number = round;
      }) in
      rw e (omega arith)
  | inr e ↦ rw e (omega arith)
]

bounds :
    (o : ToolOrchestrator) (context : ToolContext)
    → LoopProof o context (IsCounted o) (IsWithinLimits o)
unfolding keep_result
bounds o context = record {
  reads = λ p h. record { counted = h.counted; within = h.within; kept = h.kept };
  asks = λ p r vs h. record { counted = h.counted; within = h.within; kept = h.kept };
  keeps = λ p round v r a x t h. record {
    counted = length-append_one p.executed _ ∙ ap (λ n. n + 1) h.counted;
    within = t;
    kept = keep_result-counts o context p round v r h.kept;
  };
  stops = λ p rounds reason code b h. record {
    counted = h.counted;
    within = h.within;
    kept = h.kept;
    rounds = b;
  };
  breaks = λ p round v reason code a t b h. record {
    counted = length-append_one p.executed _ ∙ ap (λ n. n + 1) h.counted;
    within = t;
    kept = omega (arith, h.kept);
    rounds = b;
  };
  finishes = λ p round r response b h. record {
    counted = h.counted;
    within = h.within;
    kept = h.kept;
    rounds = b;
  };
}

-- However the model, the tools and the clock behave, a run makes at most the allowed number of tool
-- calls in at most the allowed number of rounds, reports exactly the number of calls it made, and
-- keeps no more results than that.
pub run-IsWithinLimits :
    (o : ToolOrchestrator) (messages : List LlmMessage) (context : ToolContext) (prompt : Codes)
    → IsWithinLimits o (run o messages context prompt)
run-IsWithinLimits o messages context prompt =
    run_rule o context (IsCounted o) (IsWithinLimits o) (bounds o context) messages prompt
      (record { counted = refl; within = omega arith; kept = omega arith })
