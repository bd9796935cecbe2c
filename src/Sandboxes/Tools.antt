-- ===== src/Sandboxes/Tools.antt =====
-- apps/execution-service/src/application/tool_registry.py: the tools that may run, and their commands.
use Prim.Native.String.{String, [] as empty, ◌∷◌ as char}
use keviq_core.Prelude.{
  ℕ, zero, suc, Bool, true, Option, none, some, List, [], ◌∷◌, ◌++◌, ltb, str_eq, if◌then◌else◌,
}
use keviq_core.Errors.{value_error, Result, ok, err, ◌>>=◌, ◌>>◌, raise_if, or_raise}
use keviq_core.Sandboxes.Sandbox.{SandboxType, container, subprocess, Fields}
use keviq_core.Sandboxes.Contracts.{Json, text}
use keviq_core.Sandboxes.Store.{ToolInput}

-- `len(s)`
abbrev pub text_length : String → ℕ
text_length empty = 0
text_length (char _ s) = suc (text_length s)

-- `s[:n]`
abbrev pub text_take : ℕ → String → String
text_take zero s = empty
text_take (suc n) empty = empty
text_take (suc n) (char c s) = char c (text_take n s)

-- `ToolDefinition`, less its description
pub record ToolDefinition : Type 0 where
  pub name : String
  pub command_template : List String
  pub allowed_sandbox_types : SandboxType → Bool

-- `_TOOL_REGISTRY`
abbrev pub run_script : ToolDefinition
run_script = record {
  name = "python.run_script";
  command_template = "python" ∷ "-c" ∷ [];
  allowed_sandbox_types = λ t. elim t [ container ↦ true | subprocess ↦ Bool.false ];
}

abbrev pub shell : ToolDefinition
shell = record {
  name = "shell.exec";
  command_template = "sh" ∷ "-c" ∷ [];
  allowed_sandbox_types = λ t. true;
}

abbrev pub registry : String → Option ToolDefinition
registry tool_name =
    if str_eq tool_name "python.run_script"
    then some run_script
    else if str_eq tool_name "shell.exec"
    then some shell
    else none

unfoldable pub get_tool : String → Result ToolDefinition
get_tool tool_name = or_raise (registry tool_name) value_error

-- `_MAX_INPUT_SIZE`
abbrev pub max_input_size : ℕ
max_input_size = 1000000

-- `tool_input.get("code", "")`
abbrev pub code_of : ToolInput → Json Fields
code_of [] = text ""
code_of ((k, v) ∷ d) = if str_eq k "code" then v else code_of d

-- `isinstance(code, str)`
abbrev pub as_text : Json Fields → Result String
as_text (text s) = ok s
as_text _ = err value_error

unfoldable pub build_command : String → ToolInput → Result (List String)
unfolding get_tool
build_command tool_name tool_input = do
  tool ← get_tool tool_name
  code ← as_text (code_of tool_input)
  raise_if (ltb max_input_size (text_length code)) value_error
  ok (tool.command_template ++ code ∷ [])
