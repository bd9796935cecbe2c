-- ===== src/Agents/Tools.antt =====
-- apps/agent-runtime/src/application/tool_helpers.py and `execute_tool` of shared_execution.py. What
-- depends on JSON, UTF-8 and the environment is in `World`.
use keviq_core.Prelude.{
  ℕ, String, Bool, false, not, ◌||◌, ◌&&◌, Option, none, some, List, [], ◌∷◌, str_eq, is_blank,
  is_empty, ltb, or_else, if◌then◌else◌,
}
use keviq_core.Errors.{Result, ok, err, attribute_error, value_error}
use keviq_core.Agents.Invocation.{RawCall, RawFunction, no_dict, call}
use keviq_core.Agents.Policy.{ApprovalMode}
use keviq_core.Agents.Store.{ServiceCall, Tx, calls_tool, ◌>>=◌, ◌>>◌, pure, ask, lift}

-- What `json.loads` makes of the arguments of a tool, or `{}` where JSONDecodeError or TypeError is
-- caught; `is_read` is false where it raises anything else, such as the plain ValueError of a number with
-- too many digits or a RecursionError. Of what is read: its `code` and its `command` as texts, where a
-- missing or empty one is `none`, the size of the dict in bytes when it is printed again, and how
-- the print begins. Other JSON is no dict.
pub record ToolInput : Type 0 where
  pub is_read : Bool
  pub is_dict : Bool
  pub code : Option String
  pub command : Option String
  pub size : ℕ
  pub preview : String

-- The answer of model-gateway, or the exception of its client.
pub record Response : Type 0 where
  pub output_text : Option String
  pub prompt_tokens : ℕ
  pub completion_tokens : ℕ
  pub finish_reason : Option String
  pub tool_calls : Option (List RawCall)
  pub model_concrete : Option String

pub data GatewayReply : Type 0 where
  answered : Response → GatewayReply
  gateway_failed : (error_code : Option String) (retryable : Bool) (message : String) → GatewayReply

-- `tool_result`; a missing key is `none`.
pub record ToolResult : Type 0 where
  pub status : Option String
  pub stdout : Option String
  pub error_message : Option String
  pub truncated : Bool

pub record World : Type 0 where
  -- `json.loads` with `except (json.JSONDecodeError, TypeError): {}`
  pub parse_input : String → ToolInput
  pub parse_uuid : String → Option ℕ
  pub truncate_tool_result : String → String
  pub friendly : (error_code message : String) → String
  pub append_truncated : String → String
  -- `INVOCATION_BUDGET_MS`, `MAX_TOOL_TURNS`, `TOOL_APPROVAL_MODE`
  pub invocation_budget_ms : ℕ
  pub max_tool_turns : ℕ
  pub approval_mode : ApprovalMode
  -- Which services are configured, and what they answer after the calls so far.
  pub has_execution_service : Bool
  pub has_approval_service : Bool
  pub has_artifact_service : Bool
  pub gateway : List ServiceCall → GatewayReply
  pub run_tool : List ServiceCall → Option ToolResult
  pub request_approval : List ServiceCall → Option (Option String)
  pub register_artifact : List ServiceCall → Option ℕ
  pub artifact_call : List ServiceCall → Bool

-- `tc.get("function", {}).get("name", "unknown")`
abbrev pub name_in : Option RawFunction → String
name_in none = "unknown"
name_in (some f) = or_else f.name "unknown"

abbrev pub tool_name : RawCall → String
tool_name no_dict = "unknown"
tool_name (call _ f) = name_in f

abbrev pub arguments_in : Option RawFunction → String
arguments_in none = "{}"
arguments_in (some f) = or_else f.arguments "{}"

abbrev pub arguments : RawCall → String
arguments no_dict = "{}"
arguments (call _ f) = arguments_in f

-- `tc.get("id", "")`
abbrev pub call_id : RawCall → String
call_id no_dict = ""
call_id (call id _) = or_else id ""

-- A text that is there and not empty.
abbrev pub is_given : Option String → Bool
is_given none = false
is_given (some s) = not (is_empty s)

abbrev pub has_name : Option RawFunction → Bool
has_name none = false
has_name (some f) = is_given f.name

abbrev pub is_valid_call : RawCall → Bool
is_valid_call no_dict = false
is_valid_call (call id f) = is_given id && has_name f

unfoldable pub validate_tool_calls : List RawCall → List RawCall
validate_tool_calls [] = []
validate_tool_calls (tc ∷ rest) =
    let valid = validate_tool_calls rest in if is_valid_call tc then tc ∷ valid else valid

-- `MAX_TOOL_INPUT_BYTES`
abbrev pub max_tool_input_bytes : ℕ
max_tool_input_bytes = 65536

-- `tool_input.get('code', '') or tool_input.get('command', '') or ''`
abbrev pub shell_code : ToolInput → String
shell_code i = or_else i.code (or_else i.command "")

abbrev pub is_rejected : (tool_name : String) → ToolInput → Bool
is_rejected name i =
    ltb max_tool_input_bytes i.size
    || str_eq name "shell.exec" && is_blank (shell_code i)
    || str_eq name "python.run_script" && is_blank (or_else i.code "")

-- `tool_input.get` is reached, of what has no such method.
abbrev pub has_no_get : (tool_name : String) → ToolInput → Bool
has_no_get name i =
    not i.is_dict
    && not (ltb max_tool_input_bytes i.size)
    && (str_eq name "shell.exec" || str_eq name "python.run_script")

-- `check_tool_guardrails`, whose reason is left out.
unfoldable pub check_tool_guardrails : (tool_name : String) → ToolInput → Result Bool
check_tool_guardrails name i =
    if has_no_get name i then err attribute_error else ok (is_rejected name i)

-- A result that is made here.
abbrev pub refusal : String → ToolResult
refusal message = record {
  status = some "failed";
  stdout = some "";
  error_message = some message;
  truncated = false;
}

-- The exception's text is left out.
abbrev pub tool_reply : Option ToolResult → ToolResult
tool_reply none = refusal "Tool execution failed"
tool_reply (some r) = r

module _ (w : World) where
  -- `execution_service.call_tool(…)`, with its exceptions caught
  unfoldable pub call_tool : (sandbox_id : ℕ) (name : String) (attempt_index : ℕ) → Tx ToolResult
  unfolding ask
  call_tool sandbox_id name attempt_index = do
    ask (calls_tool sandbox_id name attempt_index)
    λ s. pure (tool_reply (w.run_tool s.port_calls)) s

  unfoldable pub in_sandbox : Option ℕ → (name : String) (attempt_index : ℕ) → Tx ToolResult
  unfolding call_tool
  in_sandbox none name attempt_index = pure (refusal "No sandbox_id available")
  in_sandbox (some sandbox_id) name attempt_index =
      if w.has_execution_service
      then call_tool sandbox_id name attempt_index
      else pure (refusal "No execution service")

  -- The arguments are read, and then checked; what is raised by the reading and not caught is a
  -- ValueError here.
  unfoldable pub guard_input : RawCall → Result Bool
  unfolding check_tool_guardrails
  guard_input tc =
      let i = w.parse_input (arguments tc) in
      if i.is_read then check_tool_guardrails (tool_name tc) i else err value_error

  unfoldable pub execute_tool : RawCall → Option ℕ → (attempt_index : ℕ) → Tx ToolResult
  unfolding in_sandbox guard_input
  execute_tool tc sandbox_id attempt_index = (do
    rejected ← lift (guard_input tc)
    (if rejected
        then pure (refusal "rejected")
        else in_sandbox sandbox_id (tool_name tc) attempt_index))
