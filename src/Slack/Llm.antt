-- ===== src/Slack/Llm.antt =====
-- brightbean-studio/apps/slack_bot/llm/base.py and llm/router.py: the messages between the bot and a
-- language model, and the router with its fallback. A provider is a parameter, which answers the
-- call made at an instant. The arguments of a call are a JSON object, given by its canonical text,
-- the one with sorted keys.
use bright_bean_paysys.Common.{
  ℕ, Bool, true, false, Option, none, some, List, [], ◌∷◌, ◌++◌, if◌then◌else◌, Result, ok, err,
}
use bright_bean_paysys.ApiKeys.Token.{Codes}

-- `LLMRole`
pub data LlmRole : Type 0 where
  system user assistant : LlmRole

pub record LlmToolCall : Type 0 where
  pub id : Codes
  pub name : Codes
  pub arguments : Codes

pub record LlmToolResultContent : Type 0 where
  pub tool_call_id : Codes
  pub content : Codes
  pub is_error : Bool

pub record LlmMessage : Type 0 where
  pub role : LlmRole
  pub content : Codes
  pub tool_calls : Option (List LlmToolCall)
  pub tool_result : Option LlmToolResultContent

pub record LlmToolDefinition : Type 0 where
  pub name : Codes
  pub description : Codes
  pub input_schema : Codes

pub record LlmResponse : Type 0 where
  pub text : Codes
  pub tool_calls : List LlmToolCall
  pub provider_name : Codes

pub record LlmRequest : Type 0 where
  pub system_prompt : Codes
  pub messages : List LlmMessage
  pub tools : List LlmToolDefinition

-- What `complete` raises: an `LLMProviderError`, with `is_retryable`, or any other exception.
pub record LlmProviderError : Type 0 where
  pub provider_name : Codes
  pub message : Codes
  pub is_retryable : Bool

pub data CompleteError : Type 0 where
  provider_error : LlmProviderError → CompleteError
  unexpected : Codes → CompleteError

pub record LlmProvider : Type 0 where
  pub name : Codes
  pub complete : ℕ → LlmRequest → Result CompleteError LlmResponse

pub record LlmRouterResult : Type 0 where
  pub response : Option LlmResponse
  pub provider_name : Codes
  pub used_fallback : Bool
  pub primary_error : Option Codes
  pub fallback_error : Option Codes
  pub errors : List Codes

pub record LlmRouter : Type 0 where
  pub primary : LlmProvider
  pub fallback : Option LlmProvider

-- `str(exc)`, and the line kept of it
abbrev pub message_of : CompleteError → Codes
message_of (provider_error e) = e.message
message_of (unexpected text) = text

abbrev pub error_line : LlmProvider → CompleteError → Codes
error_line p (provider_error e) = e.provider_name ++ (b':' ∷ 32 ∷ e.message)
error_line p (unexpected text) = p.name ++ (b':' ∷ 32 ∷ text)

-- A permanent error is not tried again; an unexpected one counts as retryable.
abbrev pub is_permanent : CompleteError → Bool
is_permanent (provider_error e) = elim e.is_retryable [ true ↦ false | false ↦ true ]
is_permanent (unexpected _) = false

abbrev pub from_primary : LlmProvider → LlmResponse → LlmRouterResult
from_primary p response = record {
  response = some response;
  provider_name = p.name;
  used_fallback = false;
  primary_error = none;
  fallback_error = none;
  errors = [];
}

abbrev pub primary_only : LlmProvider → CompleteError → LlmRouterResult
primary_only p e = record {
  response = none;
  provider_name = [];
  used_fallback = false;
  primary_error = some (message_of e);
  fallback_error = none;
  errors = error_line p e ∷ [];
}

-- The fallback was tried after the error of the primary.
abbrev pub from_fallback :
    LlmProvider → CompleteError → LlmProvider → Result CompleteError LlmResponse → LlmRouterResult
from_fallback p e q (ok response) = record {
  response = some response;
  provider_name = q.name;
  used_fallback = true;
  primary_error = some (message_of e);
  fallback_error = none;
  errors = error_line p e ∷ [];
}
from_fallback p e q (err f) = record {
  response = none;
  provider_name = [];
  used_fallback = true;
  primary_error = some (message_of e);
  fallback_error = some (message_of f);
  errors = error_line p e ∷ error_line q f ∷ [];
}

abbrev pub try_fallback :
    ℕ → LlmRequest → LlmProvider → CompleteError → Option LlmProvider → LlmRouterResult
try_fallback now request p e none = primary_only p e
try_fallback now request p e (some q) = from_fallback p e q (q.complete now request)

abbrev pub after_primary :
    ℕ → LlmRequest → LlmRouter → Result CompleteError LlmResponse → LlmRouterResult
after_primary now request r (ok response) = from_primary r.primary response
after_primary now request r (err e) =
    if is_permanent e
    then primary_only r.primary e
    else try_fallback now request r.primary e r.fallback

unfoldable pub route : ℕ → LlmRouter → LlmRequest → LlmRouterResult
route now r request = after_primary now request r (r.primary.complete now request)
