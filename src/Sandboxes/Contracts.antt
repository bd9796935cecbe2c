-- ===== src/Sandboxes/Contracts.antt =====
-- apps/execution-service/src/domain/contracts.py: the value objects between agent-runtime and
-- execution-service. A value of a dict whose type is not the field's, which Python would carry along, is
-- refused here.
pub mod Dicts
pub mod RoundTrip
use keviq_core.Prelude.{ℕ, String, Bool, Option, str_eq, if◌then◌else◌, ℤ}
use keviq_core.Errors.{value_error, Result, ok, err}

-- A value of a dict; `object` holds a dict whose content the code does not look at.
pub data Json (O : Type 0) : Type 0 where
  text : String → Json O
  integer : ℤ → Json O
  flag : Bool → Json O
  object : O → Json O

pub data ToolExecutionStatus : Type 0 where
  completed failed timed_out : ToolExecutionStatus

-- `.value`
abbrev pub value : ToolExecutionStatus → String
value completed = "completed"
value failed = "failed"
value timed_out = "timed_out"

-- `ToolExecutionStatus(value)`
abbrev pub parse_status : String → Result ToolExecutionStatus
parse_status s =
    if str_eq s "completed"
    then ok completed
    else if str_eq s "failed"
    then ok failed
    else if str_eq s "timed_out"
    then ok timed_out
    else err value_error

pub record SandboxProvisionRequest (O : Type 0) : Type 0 where
  pub workspace_id : ℕ
  pub task_id : ℕ
  pub run_id : ℕ
  pub step_id : ℕ
  pub agent_invocation_id : ℕ
  pub sandbox_type : String
  pub policy_snapshot : O
  pub resource_limits : O
  pub network_egress_policy : O
  pub timeout_ms : ℤ

pub record SandboxProvisionResult : Type 0 where
  pub sandbox_id : ℕ
  pub status : String
  pub error_code : Option String
  pub error_message : Option String

pub record ToolExecutionRequest (O : Type 0) : Type 0 where
  pub sandbox_id : ℕ
  pub attempt_index : ℤ
  pub tool_name : String
  pub tool_input : O
  pub timeout_ms : ℤ

pub record ToolExecutionResult : Type 0 where
  pub sandbox_id : ℕ
  pub attempt_index : ℤ
  pub status : ToolExecutionStatus
  pub stdout : String
  pub stderr : String
  pub exit_code : Option ℤ
  pub truncated : Bool
  pub error_code : Option String
  pub error_message : Option String

pub record SandboxTerminationRequest : Type 0 where
  pub sandbox_id : ℕ
  pub reason : String

pub record SandboxTerminationResult : Type 0 where
  pub sandbox_id : ℕ
  pub status : String
  pub error_message : Option String
