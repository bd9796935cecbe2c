-- ===== src/Sandboxes/Execution.antt =====
-- apps/execution-service/src/application/tool_execution_service.py. The backend is a parameter: while a
-- command runs, others may use the database, so that a call of it may change the session.
pub mod Claims
pub mod Settles
pub mod Ends
pub mod Completes
pub mod Repeated
use keviq_core.Prelude.{
  ℕ, ◌/◌, String, Bool, true, false, not, ◌||◌, Option, none, some, List, ltb, if◌then◌else◌, ℤ,
}
use keviq_core.Prelude.ℤ.{pos, negsuc}
use keviq_core.Errors.{domain_error, value_error, raise_if, or_raise}
use keviq_core.Sandboxes.Sandbox
use keviq_core.Sandboxes.Sandbox.{Sandbox, ErrorDetail}
use keviq_core.Sandboxes.Contracts.{
  ToolExecutionRequest, ToolExecutionResult, ToolExecutionStatus, completed, failed, timed_out,
  value,
}
use keviq_core.Sandboxes.Store.{
  Payload, execution_requested, execution_succeeded, execution_failed, ToolInput, Tx, Session,
  Attempt, AttemptData, executes, save, get_by_id, claim_for_execution, save_attempt, get_attempt,
  write, ◌>>=◌, ◌>>◌, now, uuid4, commit, ask, pure, raise, lift, with_uow,
}
use keviq_core.Sandboxes.Tools.{ToolDefinition, get_tool, build_command, text_length, text_take}

abbrev pub Request : Type 0
Request = ToolExecutionRequest ToolInput

pub record ExecResult : Type 0 where
  pub stdout : String
  pub stderr : String
  pub exit_code : ℤ

-- What `exec_in_sandbox` comes to: a result, a `TimeoutError`, or another exception with its text.
pub data Reply : Type 0 where
  replied : ExecResult → Reply
  ran_out : Reply
  broke : (message : String) → Reply

-- `request.timeout_ms <= 0`
abbrev pub not_positive : ℤ → Bool
not_positive (pos n) = not (ltb 0 n)
not_positive (negsuc n) = true

-- `max(timeout_ms // 1000, 1)`, of a positive number
abbrev pub timeout_seconds : ℤ → ℕ
timeout_seconds (pos n) = if ltb 1 (n / 1000) then n / 1000 else 1
timeout_seconds (negsuc n) = 1

-- `_MAX_OUTPUT_SIZE`
abbrev pub max_output_size : ℕ
max_output_size = 1000000

abbrev pub truncate : String → String
truncate s = if ltb max_output_size (text_length s) then text_take max_output_size s else s

abbrev pub too_long : ExecResult → Bool
too_long r =
    ltb max_output_size (text_length r.stdout) || ltb max_output_size (text_length r.stderr)

abbrev pub is_zero : ℤ → Bool
is_zero (pos n) = not (ltb 0 n)
is_zero (negsuc n) = false

abbrev pub status_of : ExecResult → ToolExecutionStatus
status_of r = if is_zero r.exit_code then completed else failed

-- The attempt's record when the tool starts.
abbrev pub started : (execution_id now : ℕ) → Request → AttemptData
started execution_id now q = record {
  id = execution_id;
  sandbox_id = q.sandbox_id;
  attempt_index = q.attempt_index;
  tool_name = q.tool_name;
  tool_input = q.tool_input;
  status = "running";
  stdout = none;
  stderr = none;
  exit_code = none;
  truncated = none;
  error_detail = none;
  started_at = some now;
  completed_at = none;
}

-- The attempt's record when the command has ended.
abbrev pub finished : (execution_id finished_at : ℕ) → Request → ExecResult → AttemptData
finished execution_id finished_at q r = record (started execution_id finished_at q) {
  status = value (status_of r);
  stdout = some (truncate r.stdout);
  stderr = some (truncate r.stderr);
  exit_code = some r.exit_code;
  truncated = some (too_long r);
  started_at = none;
  completed_at = some finished_at;
}

-- The attempt's record when the backend raised.
abbrev pub broken :
    (execution_id finished_at : ℕ)
    → Request
    → ToolExecutionStatus
    → (error_code error_message : String) → AttemptData
broken execution_id finished_at q status error_code error_message =
    record (started execution_id finished_at q) {
      status = value status;
      error_detail =
          some record { code = error_code; message = error_message; backend_cleaned = none };
      started_at = none;
      completed_at = some finished_at;
    }

-- `if sandbox is not None: sandbox.mark_idle(); uow.sandboxes.save(sandbox)`
unfoldable pub release : Option Sandbox → Tx (Unit {0})
unfolding save Sandbox.mark_idle
release none = pure tt
release (some b) = do updated ← now; (_, b') ← lift (Sandbox.mark_idle updated b); save b'

-- One transaction: the sandbox is released, the attempt is saved and one event is written.
unfoldable pub settle :
    Request → (workspace_id correlation_id : ℕ) → AttemptData → Payload → Tx (Unit {0})
unfolding with_uow get_by_id release save_attempt write commit
settle q workspace_id correlation_id attempt payload = with_uow do
  found ← get_by_id q.sandbox_id
  release found
  save_attempt attempt
  write payload q.sandbox_id workspace_id correlation_id
  commit

-- The result that `_record_failure` returns.
abbrev pub failure :
    Request → ToolExecutionStatus → (error_code error_message : String) → ToolExecutionResult
failure q status error_code error_message = record {
  sandbox_id = q.sandbox_id;
  attempt_index = q.attempt_index;
  status = status;
  stdout = "";
  stderr = "";
  exit_code = none;
  truncated = false;
  error_code = some error_code;
  error_message = some error_message;
}

unfoldable pub record_failure :
    (execution_id : ℕ)
    → Request
    → (workspace_id correlation_id : ℕ) → ToolExecutionStatus
    → (error_code error_message : String) → Tx ToolExecutionResult
record_failure execution_id q workspace_id correlation_id status error_code error_message = do
  finished_at ← now
  settle q workspace_id correlation_id
      (broken execution_id finished_at q status error_code error_message)
      (execution_failed execution_id q.tool_name q.attempt_index error_code error_message none)
  pure (failure q status error_code error_message)

-- The check of the sandbox's type against the tool's.
unfoldable pub refuse_type : Bool → Sandbox → Tx (Unit {0})
unfolding save Sandbox.mark_idle
refuse_type false b = pure tt
refuse_type true b = do
  updated ← now
  (_, b') ← lift (Sandbox.mark_idle updated b)
  save b'
  raise domain_error

-- The first transaction: the sandbox is claimed, and the attempt is on record as running.
unfoldable pub claim : Request → ToolDefinition → (execution_id correlation_id now : ℕ) → Tx Sandbox
unfolding with_uow claim_for_execution refuse_type save_attempt write commit
claim q tool execution_id correlation_id start = with_uow do
  b ← claim_for_execution q.sandbox_id
  refuse_type (not (tool.allowed_sandbox_types b.sandbox_type)) b
  save_attempt (started execution_id start q)
  write (execution_requested execution_id q.tool_name q.attempt_index) q.sandbox_id b.workspace_id
      correlation_id
  commit
  pure b

module _ (show_integer : ℤ → String) (timeout_message : ℕ → String) where
  -- The event for the exit code.
  abbrev pub outcome : (execution_id : ℕ) → Request → ExecResult → Payload
  outcome execution_id q r =
      if is_zero r.exit_code
      then execution_succeeded execution_id q.tool_name q.attempt_index r.exit_code (too_long r)
      else execution_failed execution_id q.tool_name q.attempt_index "NON_ZERO_EXIT"
          (show_integer r.exit_code) (some r.exit_code)

  unfoldable pub record_outcome :
      (execution_id : ℕ)
      → Request
      → (workspace_id correlation_id : ℕ) → ExecResult
      → Tx ToolExecutionResult
  record_outcome execution_id q workspace_id correlation_id r = do
    finished_at ← now
    settle q workspace_id correlation_id (finished execution_id finished_at q r)
        (outcome execution_id q r)
    pure record {
      sandbox_id = q.sandbox_id;
      attempt_index = q.attempt_index;
      status = status_of r;
      stdout = truncate r.stdout;
      stderr = truncate r.stderr;
      exit_code = some r.exit_code;
      truncated = too_long r;
      error_code = none;
      error_message = none;
    }

  -- What follows the call of the backend.
  unfoldable pub after_command :
      (execution_id : ℕ)
      → Request
      → (workspace_id correlation_id : ℕ) → Reply
      → Tx ToolExecutionResult
  after_command execution_id q workspace_id correlation_id (replied r) =
      record_outcome execution_id q workspace_id correlation_id r
  after_command execution_id q workspace_id correlation_id ran_out =
      record_failure execution_id q workspace_id correlation_id timed_out "EXECUTION_TIMEOUT"
        (timeout_message (timeout_seconds q.timeout_ms))
  after_command execution_id q workspace_id correlation_id (broke message) =
      record_failure execution_id q workspace_id correlation_id failed "EXECUTION_ERROR" message

  module _ (exec_in_sandbox : ℕ → List String → ℕ → Session → Reply × Session) where
    unfoldable pub execute_tool : Request → Tx ToolExecutionResult
    unfolding ask
    execute_tool q = do
      correlation_id ← uuid4
      execution_id ← uuid4
      start ← now
      tool ← lift (get_tool q.tool_name)
      command ← lift (build_command q.tool_name q.tool_input)
      lift (raise_if (not_positive q.timeout_ms) value_error)
      b ← claim q tool execution_id correlation_id start
      ask (executes q.sandbox_id command (timeout_seconds q.timeout_ms))
      λ s.
          let (reply, s') = exec_in_sandbox q.sandbox_id command (timeout_seconds q.timeout_ms) s in
          after_command execution_id q b.workspace_id correlation_id reply s'

unfoldable pub get_execution : ℕ → Tx Attempt
unfolding with_uow get_attempt
get_execution execution_id =
    with_uow do found ← get_attempt execution_id; lift (or_raise found domain_error)
