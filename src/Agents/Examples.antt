-- ===== src/Agents/Examples.antt =====
-- An invocation of an agent at concrete inputs.
use keviq_core.Prelude.{refl, none, some, List, [], ◌∷◌, true, ℤ, All, is_blank}
use keviq_core.Transaction.Returns.{Returns}
use keviq_core.Agents.Invocation.{RawCall, call}
use keviq_core.Agents.Policy.{gate_mode}
use keviq_core.Agents.Store.{Db, Session, ServiceCall}
use keviq_core.Agents.Tools.{World, GatewayReply, answered}
use keviq_core.Agents.Contracts.{ExecutionRequest}
use keviq_core.Agents.Handler.{execute}
use keviq_core.Agents.Handler.Ends.{IsReplied, execute-Returns}
use keviq_core.Agents.Gate.{IsUngated}
use keviq_core.Agents.Gate.Executes.{execute-Safe}

abbrev wanted : RawCall
wanted = call (some "1") (some record { name = some "shell.exec"; arguments = some "{}" })

-- A model that asks for a shell, every time.
abbrev model : List ServiceCall → GatewayReply
model calls = answered record {
  output_text = some "";
  prompt_tokens = 10;
  completion_tokens = 2;
  finish_reason = some "tool_calls";
  tool_calls = some (wanted ∷ []);
  model_concrete = some "model";
}

abbrev world : World
world = record {
  parse_input = λ s. record {
    is_read = true;
    is_dict = true;
    code = some "ls";
    command = none;
    size = 12;
    preview = "ls";
  };
  parse_uuid = λ s. some 5;
  truncate_tool_result = λ s. s;
  friendly = λ code message. message;
  append_truncated = λ s. s;
  invocation_budget_ms = 300000;
  max_tool_turns = 5;
  approval_mode = gate_mode;
  has_execution_service = true;
  has_approval_service = true;
  has_artifact_service = true;
  gateway = model;
  run_tool = λ calls. none;
  request_approval = λ calls. none;
  register_artifact = λ calls. none;
  artifact_call = λ calls. true;
}

abbrev request : ExecutionRequest
request = record {
  agent_invocation_id = 4;
  workspace_id = 7;
  task_id = 1;
  run_id = 2;
  step_id = 3;
  correlation_id = 9;
  agent_id = "agent";
  model_alias = "default";
  instruction = "list the files";
  sandbox_id = some "5";
  timeout_ms = ℤ.pos 60000;
}

abbrev session : Session
session =
    let tables : Db = record { invocations = []; outbox = [] } in
    record {
      db = tables;
      committed = tables;
      clock = λ n. n;
      reads = 0;
      uuids = λ n. n;
      draws = 0;
      port_calls = [];
    }

execute-Returns_example : Returns (λ reply s'. IsReplied 4 reply s') (execute world request session)
unfolding is_blank
execute-Returns_example =
    execute-Returns world (λ t. (refl, refl)) request (some 5) session refl refl refl

execute-Safe_example : All IsUngated (execute world request session).1.port_calls
execute-Safe_example = execute-Safe world request session refl tt
