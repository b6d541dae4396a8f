-- ===== src/Slack/Tools.antt =====
-- brightbean-studio/apps/slack_bot/tool_registry.py and tool_execution.py: the registry of tools,
-- and the bounded loop of a language model that calls them. Readings of the clock are numbered, and
-- so are the calls to the model and to the tools, which answer by the number of the reading before
-- them.
pub mod Execution
pub mod Approval
use bright_bean_paysys.Common.{
  ℕ, Bool, ◌&&◌, Option, none, some, List, [], ◌∷◌, ◌++◌, map, leb, ltb, any, find, length,
  if◌then◌else◌,
}
use bright_bean_paysys.ApiKeys.Token.{Codes, same}
use bright_bean_paysys.Slack.Directory.{ErrorCode, ToolContext}
use bright_bean_paysys.Slack.Llm.{LlmToolCall, LlmToolDefinition, LlmRouter}

-- `ToolResultStatus`
pub data ToolResultStatus : Type 0 where
  succeeded no_data clarification_required failed : ToolResultStatus

-- `data` stands for the payload, which the loop only hands on.
pub record ToolResult : Type 0 where
  pub status : ToolResultStatus
  pub tool_name : Codes
  pub data_text : Codes
  pub error_code : Option ErrorCode

-- What comes back from an executor: an exception, some other value, or a result.
pub data ExecutorAnswer : Type 0 where
  raised other_value : ExecutorAnswer
  gave : ToolResult → ExecutorAnswer

-- `model_validate` is pydantic's check of the arguments by the schema; `none` where it raises.
pub record RegisteredTool : Type 0 where
  pub name : Codes
  pub description : Codes
  pub input_schema : Codes
  pub model_validate : Codes → Option Codes
  pub executor : ℕ → Codes → ToolContext → ExecutorAnswer

abbrev pub is_named : Codes → RegisteredTool → Bool
is_named name t = same t.name name

-- `ToolRegistry`: the tools in the order of their registration
unfoldable pub contains : Codes → List RegisteredTool → Bool
contains name tools = any (is_named name) tools

unfoldable pub get : Codes → List RegisteredTool → Option RegisteredTool
get name tools = find (is_named name) tools

-- `register`; `none` where it raises.
unfoldable pub register : RegisteredTool → List RegisteredTool → Option (List RegisteredTool)
unfolding contains
register tool tools = if contains tool.name tools then none else some (tools ++ (tool ∷ []))

abbrev pub to_llm_tool_definition : RegisteredTool → LlmToolDefinition
to_llm_tool_definition t = record {
  name = t.name;
  description = t.description;
  input_schema = t.input_schema;
}

abbrev pub to_llm_tool_definitions : List RegisteredTool → List LlmToolDefinition
to_llm_tool_definitions tools = map to_llm_tool_definition tools

-- `TerminationReason`
pub data TerminationReason : Type 0 where
  final_response max_rounds_reached max_calls_reached loop_detected timeout : TerminationReason
  tool_validation_failed execution_failed provider_failure : TerminationReason
  max_calls_per_response : TerminationReason

pub record PreservedToolResult : Type 0 where
  pub tool_name : Codes
  pub tool_call_id : Codes
  pub result : ToolResult
  pub round_number : ℕ

pub record ToolOrchestrationResult : Type 0 where
  pub final_text : Codes
  pub provider_name : Codes
  pub used_fallback : Bool
  pub tool_results : List PreservedToolResult
  pub tool_call_count : ℕ
  pub rounds : ℕ
  pub termination_reason : TerminationReason
  pub error_code : Option ErrorCode

-- `OrchestrationLimits`, the time in milliseconds
pub record OrchestrationLimits : Type 0 where
  pub max_rounds : ℕ
  pub max_total_calls : ℕ
  pub max_calls_per_response : ℕ
  pub max_repeated_calls : ℕ
  pub timeout_milliseconds : ℕ

abbrev pub default_limits : OrchestrationLimits
default_limits = record {
  max_rounds = 5;
  max_total_calls = 10;
  max_calls_per_response = 3;
  max_repeated_calls = 2;
  timeout_milliseconds = 30000;
}

-- `__post_init__`: whether the limits are accepted
unfoldable pub are_valid : OrchestrationLimits → Bool
are_valid l =
    leb 1 l.max_rounds
    && leb 1 l.max_total_calls
    && leb 1 l.max_calls_per_response
    && leb 1 l.max_repeated_calls
    && leb 1 l.timeout_milliseconds

-- `clock k` is the reading number k; `dumps` is `json.dumps` of a result, `none` where it raises,
-- and `dumps_failure` that of the message for a result that cannot be sent.
pub record ToolOrchestrator : Type 0 where
  pub router : LlmRouter
  pub registry : List RegisteredTool
  pub limits : OrchestrationLimits
  pub clock : ℕ → ℕ
  pub dumps : ToolResult → Option Codes
  pub dumps_failure : Codes → Codes

abbrev pub max_serialized_bytes : ℕ
max_serialized_bytes = 32768

-- `serialize_tool_result`; the text is ASCII, so its bytes are its characters.
unfoldable pub serialize_tool_result : ToolOrchestrator → ToolResult → Option Codes
serialize_tool_result o r = within (o.dumps r)
  where
    within : Option Codes → Option Codes
    within none = none
    within (some t) = if ltb max_serialized_bytes (length t) then none else some t

-- `_call_identity`
unfoldable pub call_identity : LlmToolCall → Codes
call_identity c = c.name ++ (b':' ∷ c.arguments)
