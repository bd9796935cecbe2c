-- ===== src/Agents/Policy.antt =====
-- apps/agent-runtime/src/domain/tool_approval_policy.py. The mode of the environment comes lowered and
-- stripped; a pattern is looked for by code points, and the letters of ASCII are lowered.
use Prim.Native.String.{◌++◌ as concat}
use keviq_core.Prelude.{
  ◌==◌, String, Bool, true, false, ◌&&◌, ◌||◌, Option, none, some, List, [], ◌∷◌, str_eq, or_else,
  Codes, codes, lower, if◌then◌else◌,
}

pub data ApprovalDecision : Type 0 where
  allow warn gate : ApprovalDecision

pub data ApprovalMode : Type 0 where
  none_mode warn_mode gate_mode : ApprovalMode

pub record PolicyResult : Type 0 where
  pub decision : ApprovalDecision
  pub reason : String

-- `_GATED_TOOLS`
abbrev pub is_gated_tool : String → Bool
is_gated_tool tool_name = str_eq tool_name "shell.exec" || str_eq tool_name "python.run_script"

-- `_RISKY_SHELL_PATTERNS`
abbrev pub risky_shell_patterns : List String
risky_shell_patterns =
    "curl " ∷ "wget " ∷ "nc " ∷ "chmod +x" ∷ "rm -rf /" ∷ "base64 -d" ∷ "eval " ∷ "exec "
    ∷ "> /dev/" ∷ "| bash" ∷ "| sh" ∷ []

-- `text.startswith(pattern)`
abbrev pub starts_with : (pattern text : Codes) → Bool
starts_with [] text = true
starts_with (c ∷ pattern) [] = false
starts_with (c ∷ pattern) (d ∷ text) = (c == d) && starts_with pattern text

-- `pattern in text`
unfoldable pub contains : (pattern text : Codes) → Bool
contains pattern [] = starts_with pattern []
contains pattern (c ∷ text) = starts_with pattern (c ∷ text) || contains pattern text

unfoldable pub first_pattern : List String → Codes → Option String
unfolding contains
first_pattern [] code = none
first_pattern (p ∷ rest) code = if contains (codes p) code then some p else first_pattern rest code

-- `get_approval_mode`
abbrev pub get_approval_mode : String → ApprovalMode
get_approval_mode raw =
    if str_eq raw "none" then none_mode else if str_eq raw "warn" then warn_mode else gate_mode

abbrev pub shell_reason : Option String → String
shell_reason none = "shell.exec: all shell commands gated"
shell_reason (some pattern) = concat (concat "shell.exec contains risky pattern: '" pattern) "'"

-- `_assess_tool_risk`, of the command's text
unfoldable pub assess_tool_risk : (tool_name code : String) → Option String
unfolding first_pattern
assess_tool_risk tool_name code =
    if str_eq tool_name "shell.exec"
    then some (shell_reason (first_pattern risky_shell_patterns (lower (codes code))))
    else if str_eq tool_name "python.run_script"
    then some "python.run_script: script execution gated"
    else none

-- The branches for a gated tool.
abbrev pub gated : ApprovalMode → (tool_name code : String) → PolicyResult
gated none_mode tool_name code = record { decision = allow; reason = "approval mode is 'none'" }
gated gate_mode tool_name code = record {
  decision = gate;
  reason =
      or_else (assess_tool_risk tool_name code)
        (concat tool_name " requires approval in gate mode");
}
gated warn_mode tool_name code = record {
  decision = warn;
  reason = or_else (assess_tool_risk tool_name code) (concat tool_name " flagged in warn mode");
}

abbrev pub open_reason : ApprovalMode → String → String
open_reason none_mode tool_name = "approval mode is 'none'"
open_reason _ tool_name = concat tool_name " not in gated tool set"

unfoldable pub evaluate_tool_approval : ApprovalMode → (tool_name code : String) → PolicyResult
unfolding assess_tool_risk
evaluate_tool_approval mode tool_name code =
    if is_gated_tool tool_name
    then gated mode tool_name code
    else record { decision = allow; reason = open_reason mode tool_name }
