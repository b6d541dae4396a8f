-- ===== src/Slack/Orchestrator/Safety.antt =====
-- What a run may execute (brightbean-studio/apps/slack_bot/tool_execution.py).
use bright_bean_paysys.Common.{
  ℕ, ◌+◌, ◌≡◌, refl, sym, inl, inr, true, List, [], ◌∷◌, ◌++◌, length, All, All-append, Memᴰ,
  Bool-cases, Result, ok, err, ltb,
}
use mathlib.Core.List.Memᴰ
use mathlib.Core.List.Memᴰ.{head, tail}
use bright_bean_paysys.ApiKeys.Token.{Codes}
use bright_bean_paysys.Slack.Directory.{ErrorCode, ToolContext}
use bright_bean_paysys.Slack.Llm.{LlmToolCall, LlmMessage, LlmResponse}
use bright_bean_paysys.Slack.Tools.{
  gave, ToolResult, RegisteredTool, PreservedToolResult, ToolOrchestrator,
}
use bright_bean_paysys.Slack.Tools.Execution.{
  ValidatedCall, Executed, Progress, Ended, is_succeeded, keep_result, with_executed, validate_call,
  validate_calls,
}
use bright_bean_paysys.Slack.Orchestrator.{call_tools, run}
use bright_bean_paysys.Slack.Orchestrator.Rule.{LoopProof, run_rule}
use bright_bean_paysys.Slack.Tools.Approval.{IsApproved}

-- A call was of a registered tool with arguments that its schema accepts, in the given context.
pub record IsAllowed (o : ToolOrchestrator) (context : ToolContext) (x : Executed) : Type 0 where
  pub approved : IsApproved o x.made
  pub scope : x.context ≡ context

-- A kept result is a success, and the very answer of the registered tool of its name to arguments that
-- its schema accepted and to the given context.
pub record IsAnswer (o : ToolOrchestrator) (context : ToolContext) (r : PreservedToolResult)
    : Type 0 where
  pub success : is_succeeded r.result.status ≡ true
  pub made : ValidatedCall
  pub name : r.tool_name ≡ made.call.name
  pub approved : IsApproved o made
  pub reading : ℕ
  pub answer : made.tool.executor reading made.arguments context ≡ gave r.result

pub record IsSafe (o : ToolOrchestrator) (context : ToolContext) (calls : List Executed)
    (results : List PreservedToolResult) : Type 0 where
  pub allowed : All (IsAllowed o context) calls
  pub answers : All (IsAnswer o context) results

keep_result-IsAnswer :
    (o : ToolOrchestrator) (context : ToolContext) (p : Progress) (round : ℕ) (v : ValidatedCall)
    (r : ToolResult)
    → IsApproved o v
    → v.tool.executor p.readings v.arguments context ≡ gave r
    → All (IsAnswer o context) p.tool_results
    → All
        (IsAnswer o context)
        (keep_result o round v r (with_executed context round v p)).tool_results
unfolding keep_result
keep_result-IsAnswer o context p round v r a x h = elim (Bool-cases (is_succeeded r.status)) [
  | inl e ↦ rw e (
      All-append (IsAnswer o context) p.tool_results _ h (
        record {
          success = e;
          made = v;
          name = refl;
          approved = a;
          reading = p.readings;
          answer = x;
        },
        tt,
      ))
  | inr e ↦ rw e h
]

one_more :
    (o : ToolOrchestrator) (context : ToolContext) (round : ℕ) (v : ValidatedCall)
    (calls : List Executed)
    → IsApproved o v
    → All (IsAllowed o context) calls
    → All
        (IsAllowed o context)
        (calls ++ (record { made = v; context = context; round_number = round } ∷ []))
one_more o context round v calls a h =
    All-append (IsAllowed o context) calls _ h (record { approved = a; scope = refl }, tt)

safety :
    (o : ToolOrchestrator) (context : ToolContext)
    → LoopProof o context
        (λ p. IsSafe o context p.executed p.tool_results)
        (λ e. IsSafe o context e.executed e.result.tool_results)
unfolding keep_result
safety o context = record {
  reads = λ p h. record { allowed = h.allowed; answers = h.answers };
  asks = λ p r vs h. record { allowed = h.allowed; answers = h.answers };
  keeps = λ p round v r a x t h. record {
    allowed = one_more o context round v p.executed a h.allowed;
    answers = keep_result-IsAnswer o context p round v r a x h.answers;
  };
  stops = λ p rounds reason code b h. record { allowed = h.allowed; answers = h.answers };
  breaks = λ p round v reason code a t b h. record {
    allowed = one_more o context round v p.executed a h.allowed;
    answers = h.answers;
  };
  finishes = λ p round r response b h. record { allowed = h.allowed; answers = h.answers };
}

-- Every result that a run keeps is a success, and the very answer that the registered tool of its name
-- gives to arguments that the schema of the tool accepted and to the context given to the run. Every
-- call in the log of the run is of a registered tool, with such arguments, in that context.
pub run-IsSafe :
    (o : ToolOrchestrator) (messages : List LlmMessage) (context : ToolContext) (prompt : Codes)
    → let e = run o messages context prompt in IsSafe o context e.executed e.result.tool_results
run-IsSafe o messages context prompt =
    run_rule o context (λ p. IsSafe o context p.executed p.tool_results)
      (λ e. IsSafe o context e.executed e.result.tool_results) (safety o context) messages prompt
      (record { allowed = tt; answers = tt })

-- One refused call refuses them all.
validate_calls-refused :
    (registry : List RegisteredTool) (cs : List LlmToolCall) (c : LlmToolCall) (code : ErrorCode)
    → Memᴰ c cs
    → validate_call registry c ≡ err code
    → (why : ErrorCode) × (validate_calls registry cs ≡ err why)
unfolding validate_calls
validate_calls-refused registry [] c code m h = absurd (Memᴰ.not-nil m)
validate_calls-refused registry (d ∷ cs) c code (head e) h = (code, rw (sym e, h) refl)
validate_calls-refused registry (d ∷ cs) c code (tail m) h =
    let (why, rest) = validate_calls-refused registry cs c code m h in
    first (validate_call registry d) refl why rest
  where
    first :
        (x : Result ErrorCode ValidatedCall)
        → validate_call registry d ≡ x
        → (why : ErrorCode) → validate_calls registry cs ≡ err why
        → (w : ErrorCode) × (validate_calls registry (d ∷ cs) ≡ err w)
    first (ok v) e why r = (why, rw (e, r) refl)
    first (err w) e why r = (w, rw e refl)

-- A response with a call of an unknown tool, or with arguments that its schema refuses, ends the run
-- before any of its calls is made.
pub call_tools-refused :
    (o : ToolOrchestrator) (context : ToolContext) (round : ℕ) (response : LlmResponse)
    (p : Progress) (c : LlmToolCall) (code : ErrorCode)
    → Memᴰ c response.tool_calls
    → validate_call o.registry c ≡ err code
    → (e : Ended) × (call_tools o context round response p ≡ err e) × (e.executed ≡ p.executed)
unfolding call_tools
call_tools-refused o context round response p c code m h =
    let (why, r) = validate_calls-refused o.registry response.tool_calls c code m h in
    elim (Bool-cases (ltb o.limits.max_calls_per_response (length response.tool_calls))) [
      | inl e ↦ rw e (_, refl, refl)
      | inr e ↦
          elim (Bool-cases
            (ltb o.limits.max_total_calls (p.total_calls + length response.tool_calls))) [
              | inl f ↦ rw (e, f) (_, refl, refl)
              | inr f ↦ rw (e, f, r) (_, refl, refl)
            ]
    ]
