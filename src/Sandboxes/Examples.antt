-- ===== src/Sandboxes/Examples.antt =====
-- The contracts and the services of the sandboxes at concrete inputs.
mod Executions
use Prim.Native.Char.{nul}
use Prim.Native.String.{[] as empty_text, ◌∷◌ as char}
use keviq_core.Prelude.{
  ℕ, zero, suc, ◌+◌, ◌≡◌, ◌⊎◌, ap, refl, String, Option, none, some, [], ◌∷◌, false, ℤ,
}
use keviq_core.Prelude.Tables
use keviq_core.Errors.{Error, Result, ok, err, runtime_error}
use keviq_core.Transaction.Returns.{Returns}
use keviq_core.Sandboxes.Sandbox.{Sandbox, container, ready, failed, terminated, Fields}
use keviq_core.Sandboxes.Contracts.{SandboxProvisionRequest, timed_out}
use keviq_core.Sandboxes.Contracts.Dicts.{Contract, tool_result, to_dict, from_dict}
use keviq_core.Sandboxes.Contracts.RoundTrip.{from_dict-to_dict}
use keviq_core.Sandboxes.Store.{Db, Session, provisions}
use keviq_core.Sandboxes.Provisioning.{new, parse_type, provision_sandbox, terminate_sandbox}
use keviq_core.Sandboxes.Provisioning.Ends.{
  IsStored, Told, provision_sandbox-Returns, terminate_sandbox-Returns,
}

-- The text of an identifier is as long as the number is large.
abbrev show_uuid : ℕ → String
show_uuid zero = empty_text
show_uuid (suc n) = char nul (show_uuid n)

abbrev more : Option ℕ → Option ℕ
more none = none
more (some n) = some (suc n)

abbrev parse_uuid : String → Option ℕ
parse_uuid empty_text = some zero
parse_uuid (char _ s) = more (parse_uuid s)

parse_uuid-show_uuid : (u : ℕ) → parse_uuid (show_uuid u) ≡ some u
parse_uuid-show_uuid zero = refl
parse_uuid-show_uuid (suc u) = ap more (parse_uuid-show_uuid u)

abbrev result : Contract (tt {0}) show_uuid parse_uuid
result = tool_result record {
  sandbox_id = 3;
  attempt_index = ℤ.pos 1;
  status = timed_out;
  stdout = "out";
  stderr = "";
  exit_code = some (ℤ.negsuc 8);
  truncated = false;
  error_code = some "TIMEOUT";
  error_message = none;
}

from_dict-to_dict_example :
    from_dict tt show_uuid parse_uuid result (to_dict tt show_uuid parse_uuid result) ≡ ok result
from_dict-to_dict_example = from_dict-to_dict tt show_uuid parse_uuid result parse_uuid-show_uuid

-- A backend that always raises
abbrev pub show_error : Error → String
show_error e = "raised"

abbrev backend_provision : ℕ → String → Result String
backend_provision id type = err runtime_error

abbrev pub backend_terminate : ℕ → Result (Unit {0})
backend_terminate id = err runtime_error

abbrev request : SandboxProvisionRequest Fields
request = record {
  workspace_id = 7;
  task_id = 1;
  run_id = 2;
  step_id = 3;
  agent_invocation_id = 4;
  sandbox_type = "container";
  policy_snapshot = [];
  resource_limits = [];
  network_egress_policy = [];
  timeout_ms = ℤ.pos 300000;
}

abbrev pub ready_sandbox : Sandbox
ready_sandbox = record (new 5 0 container request) { sandbox_status = ready }

abbrev pub session : Session
session =
    let tables : Db = record { sandboxes = ready_sandbox ∷ []; attempts = []; outbox = [] } in
    record {
      db = tables;
      committed = tables;
      clock = λ n. n;
      reads = 0;
      uuids = λ n. n + 100;
      draws = 0;
      port_calls = [];
    }

container_type : parse_type "container" ≡ ok container
unfolding parse_type
container_type = refl

pub stored : Tables.find (λ q. q.id) 5 session.committed.sandboxes ≡ some ready_sandbox
unfolding Tables.find
stored = refl

provision_sandbox-Returns_example :
    Returns
      (λ a s'.
        (a.sandbox_id ≡ session.uuids session.draws)
        × Told (err runtime_error) a s'
        × (s'.port_calls ≡ provisions 100 "container" ∷ []))
      (provision_sandbox show_error backend_provision backend_terminate request session)
provision_sandbox-Returns_example =
    provision_sandbox-Returns show_error backend_provision backend_terminate request container
      session container_type

terminate_sandbox-Returns_example :
    Returns
      (λ a s'. (a.status ≡ "terminated") × IsStored s'.committed 5 terminated)
      (terminate_sandbox show_error backend_provision backend_terminate
        record { sandbox_id = 5; reason = "timeout" }
        session)
terminate_sandbox-Returns_example =
    terminate_sandbox-Returns show_error backend_provision backend_terminate
      record { sandbox_id = 5; reason = "timeout" } ready_sandbox session stored refl
