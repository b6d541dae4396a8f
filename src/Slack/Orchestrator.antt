-- ===== src/Slack/Orchestrator.antt =====
-- brightbean-studio/apps/slack_bot/tool_execution.py: `ToolOrchestrator.run`. Readings of the clock
-- are numbered, and the model and the tools answer by the number of the reading before their call.
-- The messages that `run` starts with are not none, since a request refuses an empty conversation.
pub mod Rule
pub mod Bounds
pub mod Safety
pub mod Examples
use bright_bean_paysys.Common.{
  ℕ, zero, suc, ◌+◌, ◌-◌, Bool, true, false, Option, none, some, List, [], ◌∷◌, ◌++◌, leb, ltb, any,
  length, is_empty, if◌then◌else◌, Result, ok, err, ◌>>=◌, ◌>>◌, raise_if,
}
use bright_bean_paysys.ApiKeys.Token.{Codes, same}
use bright_bean_paysys.Slack.Directory.{
  ErrorCode, tool_not_found, tool_argument_validation_failed, tool_execution_failed,
  tool_loop_limit_reached, llm_temporarily_unavailable, ToolContext,
}
use bright_bean_paysys.Slack.Llm.{
  assistant, user, LlmToolCall, LlmMessage, LlmResponse, LlmRouterResult, route,
}
use bright_bean_paysys.Slack.Tools.{
  ToolResult, ToolResultStatus, succeeded, failed, ExecutorAnswer, raised, other_value, gave,
  RegisteredTool, get, to_llm_tool_definitions, TerminationReason, final_response,
  max_rounds_reached, max_calls_reached, loop_detected, timeout, tool_validation_failed,
  execution_failed, provider_failure, max_calls_per_response, PreservedToolResult,
  ToolOrchestrationResult, ToolOrchestrator, serialize_tool_result, call_identity,
}
use bright_bean_paysys.Slack.Tools.Execution.{
  ValidatedCall, Executed, Progress, Ended, stopped, is_late, after_reading, validate_calls,
  execute_all,
}

abbrev pub finished : Progress → ℕ → LlmRouterResult → LlmResponse → Ended
finished p round r response = record {
  result = record {
    final_text = response.text;
    provider_name = response.provider_name;
    used_fallback = r.used_fallback;
    tool_results = p.tool_results;
    tool_call_count = p.total_calls;
    rounds = round;
    termination_reason = final_response;
    error_code = none;
  };
  executed = p.executed;
}

-- Loop detection: the calls of a response that the last one made already
abbrev pub identities : List ValidatedCall → List Codes
identities [] = []
identities (v ∷ vs) = call_identity v.call ∷ identities vs

unfoldable pub repeated : List Codes → List Codes → ℕ
repeated last [] = 0
repeated last (i ∷ is) = (if any (same i) last then 1 else 0) + repeated last is

-- The validated calls, or the return with the reason.
abbrev pub or_stop :
    Progress → ℕ → Result ErrorCode (List ValidatedCall) → Result Ended (List ValidatedCall)
or_stop p round (ok vs) = ok vs
or_stop p round (err code) = err (stopped p round p.total_calls tool_validation_failed code)

-- The assistant's message, when its calls are accepted.
abbrev pub asked : LlmResponse → List ValidatedCall → Progress → Progress
asked response vs p = record p {
  last_call_identities = identities vs;
  conversation =
      p.conversation
      ++ (record {
        role = assistant;
        content = response.text;
        tool_calls = some response.tool_calls;
        tool_result = none;
      }
          ∷ []);
}

-- A response whose calls are valid
unfoldable pub accept :
    ToolOrchestrator
    → ToolContext
    → ℕ
    → LlmResponse
    → Progress
    → List ValidatedCall
    → Result Ended Progress
unfolding repeated execute_all
accept o context round response p vs =
    raise_if (leb o.limits.max_repeated_calls (repeated p.last_call_identities (identities vs)))
      (stopped p round p.total_calls loop_detected tool_loop_limit_reached)
    >> execute_all o context round vs (asked response vs p)

-- A response with tool calls
unfoldable pub call_tools :
    ToolOrchestrator → ToolContext → ℕ → LlmResponse → Progress → Result Ended Progress
unfolding validate_calls accept
call_tools o context round response p = do
  raise_if (ltb o.limits.max_calls_per_response (length response.tool_calls))
      (stopped p round p.total_calls max_calls_per_response tool_execution_failed)
  raise_if (ltb o.limits.max_total_calls (p.total_calls + length response.tool_calls))
      (stopped p round p.total_calls max_calls_reached tool_loop_limit_reached)
  vs ← or_stop p round (validate_calls o.registry response.tool_calls)
  accept o context round response p vs

abbrev pub answered :
    ToolOrchestrator
    → ToolContext
    → ℕ
    → LlmRouterResult
    → Progress
    → Option LlmResponse
    → Result Ended Progress
answered o context round r p none =
    err (stopped p (round - 1) p.total_calls provider_failure llm_temporarily_unavailable)
answered o context round r p (some response) =
    if is_empty response.tool_calls
    then err (finished p round r response)
    else call_tools o context round response p

-- One round
unfoldable pub take_round :
    ToolOrchestrator → ToolContext → Codes → ℕ → Progress → Result Ended Progress
unfolding call_tools route
take_round o context prompt round p =
    if is_late o p
    then err (stopped p (round - 1) p.total_calls timeout llm_temporarily_unavailable)
    else let r = route p.readings o.router (record {
      system_prompt = prompt;
      messages = p.conversation;
      tools = to_llm_tool_definitions o.registry;
    }) in
      answered o context round r (after_reading p) r.response

-- `for round_num in range(1, max_rounds + 1)`: the rounds left, and the number of the next one
unfoldable pub run_rounds : ToolOrchestrator → ToolContext → Codes → ℕ → ℕ → Progress → Ended
unfolding take_round
run_rounds o context prompt zero round p =
    stopped p o.limits.max_rounds p.total_calls max_rounds_reached tool_loop_limit_reached
run_rounds o context prompt (suc left) round p = elim (take_round o context prompt round p) [
  | ok q ↦ run_rounds o context prompt left (round + 1) q
  | err e ↦ e
]

abbrev pub started : List LlmMessage → Progress
started messages = record {
  conversation = messages;
  tool_results = [];
  total_calls = 0;
  last_call_identities = [];
  readings = 1;
  executed = [];
}

unfoldable pub run : ToolOrchestrator → List LlmMessage → ToolContext → Codes → Ended
unfolding run_rounds
run o messages context prompt = run_rounds o context prompt o.limits.max_rounds 1 (started messages)
