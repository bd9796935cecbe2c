-- ===== src/Agents/Store.antt =====
-- apps/agent-runtime/src: the table of invocations with the outbox (infrastructure/db/unit_of_work.py and
-- _invocation_sql.py), the payloads of the events, and the calls of other services. What the other
-- services answer depends on all calls that were made.
use keviq_core.Prelude.{ℕ, String, Option, none, some, List, [], ◌∷◌, ◌++◌}
use keviq_core.Prelude.Tables
use keviq_core.Errors.{Result, ok}
use keviq_core.Transaction
unfoldable pub use keviq_core.Transaction.{
  continue, ◌>>=◌, ◌>>◌, now, commit, ask, pure, raise, lift, recover, try_except, close,
}
use keviq_core.Agents.Invocation.{
  AgentInvocation, InvocationStatus, ErrorInfo, Message, RawCall, Summary,
}

pub data EventType : Type 0 where
  started waiting_human waiting_tool turn_completed completed failed timed_out : EventType

-- `build_event_payload`: what the code takes from the invocation.
pub record EventPayload : Type 0 where
  pub agent_invocation_id : ℕ
  pub step_id : ℕ
  pub run_id : ℕ
  pub task_id : ℕ
  pub workspace_id : ℕ
  pub agent_id : String
  pub invocation_status : InvocationStatus
  pub started_at : Option ℕ
  pub completed_at : Option ℕ
  pub error_detail : Option ErrorInfo
  pub prompt_tokens : Option ℕ
  pub completion_tokens : Option ℕ
  pub tool_calls : Option (List RawCall)

abbrev pub build_event_payload : AgentInvocation → EventPayload
build_event_payload v = record {
  agent_invocation_id = v.id;
  step_id = v.step_id;
  run_id = v.run_id;
  task_id = v.task_id;
  workspace_id = v.workspace_id;
  agent_id = v.agent_id;
  invocation_status = v.invocation_status;
  started_at = v.started_at;
  completed_at = v.completed_at;
  error_detail = v.error_detail;
  prompt_tokens = v.prompt_tokens;
  completion_tokens = v.completion_tokens;
  tool_calls = v.tool_calls;
}

-- One tool of a turn: its name, and the status of its execution.
pub record Detail : Type 0 where
  pub name : String
  pub status : String

-- The payload of an event; `turn` is `build_turn_event_payload`, less the durations.
pub data Payload : Type 0 where
  plain : EventPayload → Payload
  summed : EventPayload → Summary → Payload
  turn :
      (agent_invocation_id run_id task_id workspace_id turn_index tool_count failure_count : ℕ)
      (tools : List Detail)
      → Payload

pub record OutboxEvent : Type 0 where
  pub event_type : EventType
  pub payload : Payload
  pub correlation_id : ℕ

pub record Db : Type 0 where
  pub invocations : List AgentInvocation
  pub outbox : List OutboxEvent

-- A call of model-gateway, execution-service, the orchestrator's approvals, or artifact-service.
pub data ServiceCall : Type 0 where
  invokes_model : (messages : List Message) (timeout_ms : ℕ) → ServiceCall
  calls_tool : (sandbox_id : ℕ) (tool_name : String) (attempt_index : ℕ) → ServiceCall
  requests_approval : (invocation_id : ℕ) (tool_name : String) → ServiceCall
  registers_artifact begins_writing finalizes_artifact fails_artifact : ServiceCall

abbrev pub Session : Type 0
Session = Transaction.Session Db ServiceCall

-- Code that may raise; what it did to the session before stays done.
abbrev pub Tx : Type 0 → Type 0
Tx A = Session → Result A × Session

-- `ON CONFLICT (id) DO UPDATE SET …`: who it belongs to and when it was created stay.
abbrev pub update_row : (new old : AgentInvocation) → AgentInvocation
update_row v old = record old {
  invocation_status = v.invocation_status;
  prompt_tokens = v.prompt_tokens;
  completion_tokens = v.completion_tokens;
  total_cost_usd = v.total_cost_usd;
  input_messages = v.input_messages;
  output_messages = v.output_messages;
  tool_calls = v.tool_calls;
  error_detail = v.error_detail;
  pending_tool_context = v.pending_tool_context;
  started_at = v.started_at;
  completed_at = v.completed_at;
}

abbrev pub upserted : AgentInvocation → Option AgentInvocation → AgentInvocation
upserted v none = v
upserted v (some old) = update_row v old

-- `UPSERT_INVOCATION`
unfoldable pub upsert : AgentInvocation → List AgentInvocation → List AgentInvocation
upsert v rows = Tables.save (λ r. r.id) (upserted v (Tables.find (λ r. r.id) v.id rows)) rows

-- `InvocationUnitOfWork.save_with_event`: one transaction of its own.
unfoldable pub save_payload : AgentInvocation → EventType → Payload → Tx (Unit {0})
save_payload v event_type payload s =
    let tables : Db = record {
      invocations = upsert v s.committed.invocations;
      outbox =
          s.committed.outbox
          ++ record {
            event_type = event_type;
            payload = payload;
            correlation_id = v.correlation_id;
          }
            ∷ [];
    } in
    (ok tt, record s { db = tables; committed = tables })

-- shared_execution.py
unfoldable pub save_with_event : AgentInvocation → EventType → Tx (Unit {0})
unfolding save_payload
save_with_event v event_type = save_payload v event_type (plain (build_event_payload v))
