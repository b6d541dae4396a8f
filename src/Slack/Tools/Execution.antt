-- ===== src/Slack/Tools/Execution.antt =====
-- brightbean-studio/apps/slack_bot/tool_execution.py: the validation of the calls of one response, and
-- their execution one after the other.
use bright_bean_paysys.Common.{
  ℕ, ◌+◌, ◌-◌, Bool, true, false, Option, none, some, List, [], ◌∷◌, ◌++◌, leb, if◌then◌else◌,
  Result, ok, err, ◌>>=◌,
}
use bright_bean_paysys.ApiKeys.Token.{Codes}
use bright_bean_paysys.Slack.Directory.{
  ErrorCode, tool_not_found, tool_argument_validation_failed, tool_execution_failed,
  llm_temporarily_unavailable, ToolContext,
}
use bright_bean_paysys.Slack.Llm.{user, LlmToolCall, LlmMessage}
use bright_bean_paysys.Slack.Tools.{
  ToolResult, ToolResultStatus, succeeded, failed, ExecutorAnswer, raised, other_value, gave,
  RegisteredTool, get, TerminationReason, timeout, execution_failed, PreservedToolResult,
  ToolOrchestrationResult, ToolOrchestrator, serialize_tool_result,
}

-- A call that passed the checks, and a call that was made.
pub record ValidatedCall : Type 0 where
  pub call : LlmToolCall
  pub tool : RegisteredTool
  pub arguments : Codes

pub record Executed : Type 0 where
  pub made : ValidatedCall
  pub context : ToolContext
  pub round_number : ℕ

-- The local variables of `run`, the number of readings so far, and the calls made to executors.
pub record Progress : Type 0 where
  pub conversation : List LlmMessage
  pub tool_results : List PreservedToolResult
  pub total_calls : ℕ
  pub last_call_identities : List Codes
  pub readings : ℕ
  pub executed : List Executed

-- A return of `run`, with the calls that were made.
pub record Ended : Type 0 where
  pub result : ToolOrchestrationResult
  pub executed : List Executed

-- A failure after so many rounds and calls.
abbrev pub stopped : Progress → ℕ → ℕ → TerminationReason → ErrorCode → Ended
stopped p rounds calls reason code = record {
  result = record {
    final_text = [];
    provider_name = [];
    used_fallback = false;
    tool_results = p.tool_results;
    tool_call_count = calls;
    rounds = rounds;
    termination_reason = reason;
    error_code = some code;
  };
  executed = p.executed;
}

-- `elapsed >= limits.timeout_seconds`, on the next reading; reading 0 is the start.
abbrev pub is_late : ToolOrchestrator → Progress → Bool
is_late o p = leb o.limits.timeout_milliseconds (o.clock p.readings - o.clock 0)

abbrev pub after_reading : Progress → Progress
after_reading p = record p { readings = p.readings + 1 }

-- Validation of one call and of all calls of a response
abbrev pub checked : LlmToolCall → RegisteredTool → Option Codes → Result ErrorCode ValidatedCall
checked c tool none = err tool_argument_validation_failed
checked c tool (some args) = ok (record { call = c; tool = tool; arguments = args })

abbrev pub checked_by : LlmToolCall → Option RegisteredTool → Result ErrorCode ValidatedCall
checked_by c none = err tool_not_found
checked_by c (some tool) = checked c tool (tool.model_validate c.arguments)

unfoldable pub validate_call : List RegisteredTool → LlmToolCall → Result ErrorCode ValidatedCall
unfolding get
validate_call registry c = checked_by c (get c.name registry)

unfoldable pub validate_calls :
    List RegisteredTool → List LlmToolCall → Result ErrorCode (List ValidatedCall)
unfolding validate_call
validate_calls registry [] = ok []
validate_calls registry (c ∷ cs) = do
  v ← validate_call registry c
  vs ← validate_calls registry cs
  ok (v ∷ vs)

-- The message for a result, and the variables after it.
abbrev pub content_message : Codes → Codes → Bool → LlmMessage
content_message call_id content is_error = record {
  role = user;
  content = [];
  tool_calls = none;
  tool_result = some (record { tool_call_id = call_id; content = content; is_error = is_error });
}

abbrev pub is_failed : ToolResultStatus → Bool
is_failed failed = true
is_failed _ = false

abbrev pub is_succeeded : ToolResultStatus → Bool
is_succeeded succeeded = true
is_succeeded _ = false

abbrev pub result_message : ToolOrchestrator → LlmToolCall → ToolResult → Option Codes → LlmMessage
result_message o c r (some text) = content_message c.id text (is_failed r.status)
result_message o c r none = content_message c.id (o.dumps_failure c.name) true

unfoldable pub keep_result : ToolOrchestrator → ℕ → ValidatedCall → ToolResult → Progress → Progress
unfolding serialize_tool_result
keep_result o round v r p = record p {
  total_calls = p.total_calls + 1;
  tool_results =
      if is_succeeded r.status
      then p.tool_results
        ++ (record {
          tool_name = v.call.name;
          tool_call_id = v.call.id;
          result = r;
          round_number = round;
        }
            ∷ [])
      else p.tool_results;
  conversation = p.conversation ++ (result_message o v.call r (serialize_tool_result o r) ∷ []);
}

abbrev pub with_executed : ToolContext → ℕ → ValidatedCall → Progress → Progress
with_executed context round v p = record p {
  readings = p.readings + 1;
  executed = p.executed ++ (record { made = v; context = context; round_number = round } ∷ []);
}

-- What an execution leads to; a call that fails is counted.
abbrev pub absorbed :
    ToolOrchestrator → ℕ → ValidatedCall → Progress → ExecutorAnswer → Result Ended Progress
absorbed o round v p raised =
    err (stopped p round (p.total_calls + 1) execution_failed tool_execution_failed)
absorbed o round v p other_value =
    err (stopped p round (p.total_calls + 1) execution_failed tool_execution_failed)
absorbed o round v p (gave r) = ok (keep_result o round v r p)

unfoldable pub execute :
    ToolOrchestrator → ToolContext → ℕ → ValidatedCall → Progress → Result Ended Progress
unfolding keep_result
execute o context round v p =
    if is_late o p
    then err (stopped p round p.total_calls timeout llm_temporarily_unavailable)
    else absorbed o round v (with_executed context round v p)
        (v.tool.executor p.readings v.arguments context)

unfoldable pub execute_all :
    ToolOrchestrator → ToolContext → ℕ → List ValidatedCall → Progress → Result Ended Progress
unfolding execute
execute_all o context round [] p = ok p
execute_all o context round (v ∷ vs) p =
    execute o context round v p >>= execute_all o context round vs
