-- ===== src/Slack/Orchestrator/Examples.antt =====
-- Tests and examples of the loop: a model that calls one tool twice and then answers, one that never
-- stops calling, and a tool that answers always.
use bright_bean_paysys.Common.{ℕ, ◌≡◌, refl, none, some, List, [], ◌∷◌, leb, if◌then◌else◌, ok, err}
use bright_bean_paysys.ApiKeys.Token.{Codes, same}
use bright_bean_paysys.Slack.Directory.{tool_not_found, tool_loop_limit_reached}
use bright_bean_paysys.Slack.Examples.{the_context}
use bright_bean_paysys.Slack.Llm.{
  user, LlmToolCall, LlmMessage, LlmResponse, unexpected, LlmRouter, route,
}
use bright_bean_paysys.Slack.Tools.{
  ToolResult, succeeded, gave, RegisteredTool, get, default_limits, final_response,
  max_rounds_reached, ToolOrchestrator, serialize_tool_result, call_identity,
}
use bright_bean_paysys.Slack.Tools.Execution.{
  Ended, validate_call, validate_calls, keep_result, execute, execute_all,
}
use bright_bean_paysys.Slack.Orchestrator.{
  repeated, accept, call_tools, take_round, run_rounds, run,
}
use bright_bean_paysys.Slack.Orchestrator.Bounds.{IsWithinLimits, run-IsWithinLimits}
use bright_bean_paysys.Slack.Orchestrator.Safety.{IsSafe, run-IsSafe}

abbrev tool_name : Codes
tool_name = b'r' ∷ []

abbrev a_result : ToolResult
a_result = record { status = succeeded; tool_name = tool_name; data_text = []; error_code = none }

abbrev a_tool : RegisteredTool
a_tool = record {
  name = tool_name;
  description = b'd' ∷ [];
  input_schema = [];
  model_validate = λ args. some args;
  executor = λ now args context. gave a_result;
}

abbrev a_call : Codes → ℕ → LlmToolCall
a_call name k = record { id = b'i' ∷ []; name = name; arguments = k ∷ [] }

abbrev asking : Codes → ℕ → LlmResponse
asking name k = record { text = []; tool_calls = a_call name k ∷ []; provider_name = b'p' ∷ [] }

abbrev answer : LlmResponse
answer = record { text = b'!' ∷ []; tool_calls = []; provider_name = b'p' ∷ [] }

-- The first provider is down; the second asks, with new arguments each time, until reading `last`.
abbrev a_router : ℕ → LlmRouter
a_router last = record {
  primary = record { name = b'q' ∷ []; complete = λ now r. err (unexpected []) };
  fallback = some (record {
    name = b'p' ∷ [];
    complete = λ now r. ok (if leb now last then asking tool_name now else answer);
  });
}

abbrev an_orchestrator : ℕ → ToolOrchestrator
an_orchestrator last = record {
  router = a_router last;
  registry = a_tool ∷ [];
  limits = default_limits;
  clock = λ k. k;
  dumps = λ r. some r.tool_name;
  dumps_failure = λ name. name;
}

abbrev a_question : List LlmMessage
a_question = record { role = user; content = b'?' ∷ []; tool_calls = none; tool_result = none } ∷ []

abbrev a_run : ℕ → Ended
a_run last = run (an_orchestrator last) a_question the_context []

answered_after_two :
    ((a_run 4).result.termination_reason ≡ final_response)
    × ((a_run 4).result.tool_call_count ≡ 2)
    × ((a_run 4).result.rounds ≡ 3)
unfolding run run_rounds take_round route call_tools validate_calls validate_call get same repeated
    accept execute_all execute keep_result serialize_tool_result call_identity
answered_after_two = (refl, refl, refl)

never_answered :
    ((a_run 100).result.termination_reason ≡ max_rounds_reached)
    × ((a_run 100).result.error_code ≡ some tool_loop_limit_reached)
    × ((a_run 100).result.tool_call_count ≡ 5)
unfolding run run_rounds take_round route call_tools validate_calls validate_call get same repeated
    accept execute_all execute keep_result serialize_tool_result call_identity
never_answered = (refl, refl, refl)

run-IsWithinLimits_example : IsWithinLimits (an_orchestrator 100) (a_run 100)
run-IsWithinLimits_example = run-IsWithinLimits (an_orchestrator 100) a_question the_context []

run-IsSafe_example :
    IsSafe (an_orchestrator 4) the_context (a_run 4).executed (a_run 4).result.tool_results
run-IsSafe_example = run-IsSafe (an_orchestrator 4) a_question the_context []

abbrev mixed : LlmResponse
mixed = record {
  text = [];
  tool_calls = a_call (b'x' ∷ []) 1 ∷ a_call tool_name 2 ∷ [];
  provider_name = b'p' ∷ [];
}

unknown_call :
    validate_call (an_orchestrator 4).registry (a_call (b'x' ∷ []) 1) ≡ err tool_not_found
unfolding validate_call get same
unknown_call = refl
