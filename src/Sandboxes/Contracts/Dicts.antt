-- ===== src/Sandboxes/Contracts/Dicts.antt =====
-- apps/execution-service/src/domain/contracts.py: `to_dict` and `from_dict`. The text of a UUID, and the
-- reading of one, are parameters.
use keviq_core.Prelude.{
  ℕ, String, Bool, false, Option, none, some, List, [], ◌∷◌, ◌++◌, str_eq, if◌then◌else◌, ℤ,
}
use keviq_core.Errors.{type_error, key_error, value_error, Result, ok, err, ◌>>=◌, or_raise}
use keviq_core.Sandboxes.Contracts.{
  Json, text, integer, flag, object, ToolExecutionStatus, value, parse_status,
  SandboxProvisionRequest, SandboxProvisionResult, ToolExecutionRequest, ToolExecutionResult,
  SandboxTerminationRequest, SandboxTerminationResult,
}

-- `{}` is `empty`.
module _ {O : Type 0} (empty : O) (show_uuid : ℕ → String) (parse_uuid : String → Option ℕ) where
  abbrev pub Dict : Type 0
  Dict = List (String × Json O)

  -- `data.get(key)`
  abbrev lookup : String → Dict → Option (Json O)
  lookup key [] = none
  lookup key ((k, v) ∷ d) = if str_eq k key then some v else lookup key d

  abbrev as_text : Json O → Result String
  as_text (text s) = ok s
  as_text _ = err type_error

  abbrev as_integer : Json O → Result ℤ
  as_integer (integer n) = ok n
  as_integer _ = err type_error

  abbrev as_flag : Json O → Result Bool
  as_flag (flag b) = ok b
  as_flag _ = err type_error

  abbrev as_object : Json O → Result O
  as_object (object o) = ok o
  as_object _ = err type_error

  -- `UUID(text)`
  abbrev as_uuid : Json O → Result ℕ
  as_uuid (text s) = or_raise (parse_uuid s) value_error
  as_uuid _ = err type_error

  abbrev as_status : Json O → Result ToolExecutionStatus
  as_status (text s) = parse_status s
  as_status _ = err value_error

  module _ {A : Type 0} (read : Json O → Result A) where
    -- `data[key]`
    abbrev required : String → Dict → Result A
    required key d = do v ← or_raise (lookup key d) key_error; read v

    abbrev read_or : A → Option (Json O) → Result A
    read_or default none = ok default
    read_or default (some v) = read v

    -- `data.get(key, default)`
    abbrev with_default : String → A → Dict → Result A
    with_default key default d = read_or default (lookup key d)

    abbrev read_some : Json O → Result (Option A)
    read_some v = do a ← read v; ok (some a)

  -- `data.get(key)`, where a missing key is `None`
  abbrev optional : {A : Type 0} → (Json O → Result A) → String → Dict → Result (Option A)
  optional read key d = read_or (read_some read) none (lookup key d)

  -- `if field is not None: result[key] = field`
  abbrev entry : {A : Type 0} → (A → Json O) → String → Option A → Dict
  entry write key none = []
  entry write key (some a) = (key, write a) ∷ []

  abbrev uuid : ℕ → Json O
  uuid u = text (show_uuid u)

  pub data Contract : Type 0 where
    provision_request : SandboxProvisionRequest O → Contract
    provision_result : SandboxProvisionResult → Contract
    tool_request : ToolExecutionRequest O → Contract
    tool_result : ToolExecutionResult → Contract
    termination_request : SandboxTerminationRequest → Contract
    termination_result : SandboxTerminationResult → Contract

  -- `to_dict` of each class
  unfoldable pub to_dict : Contract → Dict
  to_dict (provision_request r) =
      ("workspace_id", uuid r.workspace_id)
      ∷ ("task_id", uuid r.task_id)
      ∷ ("run_id", uuid r.run_id)
      ∷ ("step_id", uuid r.step_id)
      ∷ ("agent_invocation_id", uuid r.agent_invocation_id)
      ∷ ("sandbox_type", text r.sandbox_type)
      ∷ ("policy_snapshot", object r.policy_snapshot)
      ∷ ("resource_limits", object r.resource_limits)
      ∷ ("network_egress_policy", object r.network_egress_policy)
      ∷ ("timeout_ms", integer r.timeout_ms)
      ∷ []
  to_dict (provision_result r) =
      ("sandbox_id", uuid r.sandbox_id)
      ∷ ("status", text r.status)
      ∷ (entry text "error_code" r.error_code ++ entry text "error_message" r.error_message)
  to_dict (tool_request r) =
      ("sandbox_id", uuid r.sandbox_id)
      ∷ ("attempt_index", integer r.attempt_index)
      ∷ ("tool_name", text r.tool_name)
      ∷ ("tool_input", object r.tool_input)
      ∷ ("timeout_ms", integer r.timeout_ms)
      ∷ []
  to_dict (tool_result r) =
      ("sandbox_id", uuid r.sandbox_id)
      ∷ ("attempt_index", integer r.attempt_index)
      ∷ ("status", text (value r.status))
      ∷ ("stdout", text r.stdout)
      ∷ ("stderr", text r.stderr)
      ∷ ("truncated", flag r.truncated)
      ∷ (entry integer "exit_code" r.exit_code
          ++ (entry text "error_code" r.error_code ++ entry text "error_message" r.error_message))
  to_dict (termination_request r) =
      ("sandbox_id", uuid r.sandbox_id) ∷ ("reason", text r.reason) ∷ []
  to_dict (termination_result r) =
      ("sandbox_id", uuid r.sandbox_id)
      ∷ ("status", text r.status)
      ∷ entry text "error_message" r.error_message

  -- `from_dict` of each class
  unfoldable pub provision_request_from_dict : Dict → Result Contract
  provision_request_from_dict d = do
    workspace_id ← required as_uuid "workspace_id" d
    task_id ← required as_uuid "task_id" d
    run_id ← required as_uuid "run_id" d
    step_id ← required as_uuid "step_id" d
    agent_invocation_id ← required as_uuid "agent_invocation_id" d
    sandbox_type ← required as_text "sandbox_type" d
    policy_snapshot ← with_default as_object "policy_snapshot" empty d
    resource_limits ← with_default as_object "resource_limits" empty d
    network_egress_policy ← with_default as_object "network_egress_policy" empty d
    timeout_ms ← with_default as_integer "timeout_ms" (ℤ.pos 300000) d
    ok (
        provision_request record {
          workspace_id = workspace_id;
          task_id = task_id;
          run_id = run_id;
          step_id = step_id;
          agent_invocation_id = agent_invocation_id;
          sandbox_type = sandbox_type;
          policy_snapshot = policy_snapshot;
          resource_limits = resource_limits;
          network_egress_policy = network_egress_policy;
          timeout_ms = timeout_ms;
        })

  unfoldable pub provision_result_from_dict : Dict → Result Contract
  provision_result_from_dict d = do
    sandbox_id ← required as_uuid "sandbox_id" d
    status ← required as_text "status" d
    error_code ← optional as_text "error_code" d
    error_message ← optional as_text "error_message" d
    ok (
        provision_result record {
          sandbox_id = sandbox_id;
          status = status;
          error_code = error_code;
          error_message = error_message;
        })

  unfoldable pub tool_request_from_dict : Dict → Result Contract
  tool_request_from_dict d = do
    sandbox_id ← required as_uuid "sandbox_id" d
    attempt_index ← required as_integer "attempt_index" d
    tool_name ← required as_text "tool_name" d
    tool_input ← with_default as_object "tool_input" empty d
    timeout_ms ← with_default as_integer "timeout_ms" (ℤ.pos 30000) d
    ok (
        tool_request record {
          sandbox_id = sandbox_id;
          attempt_index = attempt_index;
          tool_name = tool_name;
          tool_input = tool_input;
          timeout_ms = timeout_ms;
        })

  unfoldable pub tool_result_from_dict : Dict → Result Contract
  tool_result_from_dict d = do
    sandbox_id ← required as_uuid "sandbox_id" d
    attempt_index ← required as_integer "attempt_index" d
    status ← required as_status "status" d
    stdout ← with_default as_text "stdout" "" d
    stderr ← with_default as_text "stderr" "" d
    exit_code ← optional as_integer "exit_code" d
    truncated ← with_default as_flag "truncated" false d
    error_code ← optional as_text "error_code" d
    error_message ← optional as_text "error_message" d
    ok (
        tool_result record {
          sandbox_id = sandbox_id;
          attempt_index = attempt_index;
          status = status;
          stdout = stdout;
          stderr = stderr;
          exit_code = exit_code;
          truncated = truncated;
          error_code = error_code;
          error_message = error_message;
        })

  unfoldable pub termination_request_from_dict : Dict → Result Contract
  termination_request_from_dict d = do
    sandbox_id ← required as_uuid "sandbox_id" d
    reason ← with_default as_text "reason" "completed" d
    ok (termination_request record { sandbox_id = sandbox_id; reason = reason })

  unfoldable pub termination_result_from_dict : Dict → Result Contract
  termination_result_from_dict d = do
    sandbox_id ← required as_uuid "sandbox_id" d
    status ← required as_text "status" d
    error_message ← optional as_text "error_message" d
    ok (
        termination_result
          record { sandbox_id = sandbox_id; status = status; error_message = error_message })

  -- The `from_dict` of the class that the contract is of.
  unfoldable pub from_dict : Contract → Dict → Result Contract
  from_dict (provision_request _) = provision_request_from_dict
  from_dict (provision_result _) = provision_result_from_dict
  from_dict (tool_request _) = tool_request_from_dict
  from_dict (tool_result _) = tool_result_from_dict
  from_dict (termination_request _) = termination_request_from_dict
  from_dict (termination_result _) = termination_result_from_dict
