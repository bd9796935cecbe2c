-- ===== src/Sandboxes/Contracts/RoundTrip.antt =====
-- A contract comes back from its dict.
use keviq_core.Prelude.{ℕ, ◌≡◌, refl, String, Bool, Option, none, some, ℤ}
use keviq_core.Errors.{ok}
use keviq_core.Sandboxes.Contracts.{
  ToolExecutionStatus, completed, failed, timed_out, parse_status, value,
}
use keviq_core.Sandboxes.Contracts.Dicts.{
  Contract, provision_request, provision_result, tool_request, tool_result, termination_request,
  termination_result, to_dict, from_dict, provision_request_from_dict, provision_result_from_dict,
  tool_request_from_dict, tool_result_from_dict, termination_request_from_dict,
  termination_result_from_dict,
}

parse_status-value : (s : ToolExecutionStatus) → parse_status (value s) ≡ ok s
parse_status-value completed = refl
parse_status-value failed = refl
parse_status-value timed_out = refl

module _ {O : Type 0} (empty : O) (show_uuid : ℕ → String) (parse_uuid : String → Option ℕ)
    (h : (u : ℕ) → parse_uuid (show_uuid u) ≡ some u) where
  provision_result-back :
      (u : ℕ) (status : String) (code message : Option String)
      → let c =
          provision_result record {
            sandbox_id = u;
            status = status;
            error_code = code;
            error_message = message;
          } in
        provision_result_from_dict empty show_uuid parse_uuid (to_dict empty show_uuid parse_uuid c)
        ≡ ok c
  unfolding provision_result_from_dict to_dict
  provision_result-back u status none none = rw (h u) refl
  provision_result-back u status none (some message) = rw (h u) refl
  provision_result-back u status (some code) none = rw (h u) refl
  provision_result-back u status (some code) (some message) = rw (h u) refl

  termination_result-back :
      (u : ℕ) (status : String) (message : Option String)
      → let c =
          termination_result record { sandbox_id = u; status = status; error_message = message } in
        termination_result_from_dict empty show_uuid parse_uuid
          (to_dict empty show_uuid parse_uuid c)
        ≡ ok c
  unfolding termination_result_from_dict to_dict
  termination_result-back u status none = rw (h u) refl
  termination_result-back u status (some message) = rw (h u) refl

  tool_result-back :
      (u : ℕ) (index : ℤ) (s : ToolExecutionStatus) (out errors : String) (cut : Bool)
      (exit : Option ℤ) (code message : Option String)
      → let c = tool_result record {
        sandbox_id = u;
        attempt_index = index;
        status = s;
        stdout = out;
        stderr = errors;
        exit_code = exit;
        truncated = cut;
        error_code = code;
        error_message = message;
      } in
        tool_result_from_dict empty show_uuid parse_uuid (to_dict empty show_uuid parse_uuid c)
        ≡ ok c
  unfolding tool_result_from_dict to_dict
  tool_result-back u index s out errors cut none none none = rw (h u, parse_status-value s) refl
  tool_result-back u index s out errors cut none none (some message) =
      rw (h u, parse_status-value s) refl
  tool_result-back u index s out errors cut none (some code) none =
      rw (h u, parse_status-value s) refl
  tool_result-back u index s out errors cut none (some code) (some message) =
      rw (h u, parse_status-value s) refl
  tool_result-back u index s out errors cut (some exit) none none =
      rw (h u, parse_status-value s) refl
  tool_result-back u index s out errors cut (some exit) none (some message) =
      rw (h u, parse_status-value s) refl
  tool_result-back u index s out errors cut (some exit) (some code) none =
      rw (h u, parse_status-value s) refl
  tool_result-back u index s out errors cut (some exit) (some code) (some message) =
      rw (h u, parse_status-value s) refl

-- Every contract comes back as it was from the dict that it is written to, whichever of its optional
-- fields it has, where the reading of a UUID undoes its writing.
pub from_dict-to_dict :
    {O : Type 0} (empty : O) (show_uuid : ℕ → String) (parse_uuid : String → Option ℕ)
    (c : Contract empty show_uuid parse_uuid)
    → ((u : ℕ) → parse_uuid (show_uuid u) ≡ some u)
    → from_dict empty show_uuid parse_uuid c (to_dict empty show_uuid parse_uuid c) ≡ ok c
unfolding from_dict to_dict provision_request_from_dict tool_request_from_dict
    termination_request_from_dict
from_dict-to_dict empty show_uuid parse_uuid (provision_request r) h =
    rw (h r.workspace_id, h r.task_id, h r.run_id, h r.step_id, h r.agent_invocation_id) refl
from_dict-to_dict empty show_uuid parse_uuid (provision_result r) h =
    provision_result-back empty show_uuid parse_uuid h r.sandbox_id r.status r.error_code
      r.error_message
from_dict-to_dict empty show_uuid parse_uuid (tool_request r) h = rw (h r.sandbox_id) refl
from_dict-to_dict empty show_uuid parse_uuid (tool_result r) h =
    tool_result-back empty show_uuid parse_uuid h r.sandbox_id r.attempt_index r.status r.stdout
      r.stderr r.truncated r.exit_code r.error_code r.error_message
from_dict-to_dict empty show_uuid parse_uuid (termination_request r) h = rw (h r.sandbox_id) refl
from_dict-to_dict empty show_uuid parse_uuid (termination_result r) h =
    termination_result-back empty show_uuid parse_uuid h r.sandbox_id r.status r.error_message
