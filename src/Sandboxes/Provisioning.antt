-- ===== src/Sandboxes/Provisioning.antt =====
-- apps/execution-service/src/application/sandbox_service.py. What `provision` and `terminate` of the backend
-- come to are parameters, and so is the text of an exception.
pub mod Ends
use keviq_core.Prelude.{ℕ, String, Option, none, some, str_eq, is_empty, if◌then◌else◌}
use keviq_core.Errors.{Error, domain_error, value_error, Result, ok, err, or_raise}
use keviq_core.Sandboxes.Sandbox
use keviq_core.Sandboxes.Sandbox.{
  Sandbox, SandboxType, container, subprocess, provisioning, TerminationReason, completed, timeout,
  policy_violation, error, manual, Fields, ErrorDetail,
}
use keviq_core.Sandboxes.Contracts.{
  SandboxProvisionRequest, SandboxProvisionResult, SandboxTerminationRequest,
  SandboxTerminationResult,
}
use keviq_core.Sandboxes.Store.{
  Payload, provision_requested, provisioned, terminated, provision_failed, termination_requested,
  Tx, provisions, terminates, save, get_by_id, write, ◌>>=◌, ◌>>◌, now, uuid4, commit, ask, pure,
  raise, lift, try_except, with_uow,
}

-- `SandboxType(value)`
unfoldable pub parse_type : String → Result SandboxType
parse_type s =
    if str_eq s "container"
    then ok container
    else if str_eq s "subprocess"
    then ok subprocess
    else err value_error

-- `TerminationReason(value)`, or `MANUAL` for another text
unfoldable pub parse_reason : String → TerminationReason
parse_reason s =
    if str_eq s "completed"
    then completed
    else if str_eq s "timeout"
    then timeout
    else if str_eq s "policy_violation"
    then policy_violation
    else if str_eq s "error"
    then error
    else manual

-- `Sandbox(…)` in `provision_sandbox`
abbrev pub new : (id now : ℕ) → SandboxType → SandboxProvisionRequest Fields → Sandbox
new id now sandbox_type r = record {
  id = id;
  workspace_id = r.workspace_id;
  task_id = r.task_id;
  run_id = r.run_id;
  step_id = r.step_id;
  agent_invocation_id = r.agent_invocation_id;
  sandbox_type = sandbox_type;
  sandbox_status = provisioning;
  policy_snapshot = r.policy_snapshot;
  resource_limits = r.resource_limits;
  network_egress_policy = r.network_egress_policy;
  started_at = none;
  terminated_at = none;
  termination_reason = none;
  error_detail = none;
  created_at = now;
  updated_at = now;
}

-- One transaction: the sandbox is saved and one event is written.
unfoldable pub persist : Sandbox → Payload → (correlation_id : ℕ) → Tx (Unit {0})
unfolding with_uow save write commit
persist b payload correlation_id =
    with_uow do save b; write payload b.id b.workspace_id correlation_id; commit

-- `if error_message`: an empty text is left out.
abbrev pub non_empty : String → Option String
non_empty s = if is_empty s then none else some s

-- The first transaction of `terminate_sandbox`.
unfoldable pub begin_termination : SandboxTerminationRequest → (correlation_id : ℕ) → Tx Sandbox
unfolding with_uow save get_by_id write commit Sandbox.mark_terminating parse_reason
begin_termination r correlation_id = with_uow do
  found ← get_by_id r.sandbox_id
  b ← lift (or_raise found domain_error)
  updated ← now
  (_, b') ← lift (Sandbox.mark_terminating (parse_reason r.reason) updated b)
  save b'
  write (termination_requested r.reason) r.sandbox_id b'.workspace_id correlation_id
  commit
  pure b'

module _ (show_error : Error → String) (backend_provision : ℕ → String → Result String)
    (backend_terminate : ℕ → Result (Unit {0})) where
  -- `backend.terminate(…)`
  unfoldable pub stop : ℕ → Tx (Unit {0})
  unfolding ask
  stop id = do ask (terminates id); lift (backend_terminate id)

  -- The branch where the backend raised.
  unfoldable pub provision_fails :
      Sandbox → (correlation_id : ℕ) → Error → Tx SandboxProvisionResult
  unfolding persist Sandbox.mark_failed
  provision_fails b correlation_id e = do
    updated ← now
    (_, b') ← lift (
        Sandbox.mark_failed
          (some record { code = "PROVISION_ERROR"; message = show_error e; backend_cleaned = none })
          updated b)
    persist b' (provision_failed (non_empty (show_error e))) correlation_id
    pure record {
      sandbox_id = b.id;
      status = "failed";
      error_code = some "PROVISION_ERROR";
      error_message = some (show_error e);
    }

  -- The branch where the backend returned; when the commit raises, the container is stopped again.
  unfoldable pub provision_succeeds : Sandbox → (correlation_id : ℕ) → Tx SandboxProvisionResult
  unfolding persist stop Sandbox.mark_ready
  provision_succeeds b correlation_id = do
    updated ← now
    started ← now
    (_, b') ← lift (Sandbox.mark_ready updated started b)
    try_except (persist b' provisioned correlation_id)
        (λ e. do try_except (stop b.id) (λ _. pure tt); raise e)
    pure record { sandbox_id = b.id; status = "ready"; error_code = none; error_message = none }

  -- What follows the call of the backend.
  unfoldable pub provision_after :
      Result String → Sandbox → (correlation_id : ℕ) → Tx SandboxProvisionResult
  unfolding provision_fails provision_succeeds
  provision_after (ok _) b correlation_id = provision_succeeds b correlation_id
  provision_after (err e) b correlation_id = provision_fails b correlation_id e

  unfoldable pub provision_sandbox : SandboxProvisionRequest Fields → Tx SandboxProvisionResult
  unfolding persist provision_after ask
  provision_sandbox r = do
    sandbox_id ← uuid4
    correlation_id ← uuid4
    sandbox_type ← lift (parse_type r.sandbox_type)
    created ← now
    let b = new sandbox_id created sandbox_type r
    persist b (provision_requested r.sandbox_type) correlation_id
    ask (provisions sandbox_id r.sandbox_type)
    provision_after (backend_provision sandbox_id r.sandbox_type) b correlation_id

  unfoldable pub terminate_sandbox : SandboxTerminationRequest → Tx SandboxTerminationResult
  unfolding begin_termination persist stop Sandbox.mark_terminated
  terminate_sandbox r = do
    correlation_id ← uuid4
    b ← begin_termination r correlation_id
    try_except (stop r.sandbox_id) (λ _. pure tt)
    updated ← now
    finished ← now
    (_, b') ← lift (Sandbox.mark_terminated updated finished b)
    persist b' terminated correlation_id
    pure record { sandbox_id = r.sandbox_id; status = "terminated"; error_message = none }
