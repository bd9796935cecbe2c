-- ===== src/Agents/Contracts.antt =====
-- apps/agent-runtime/src/domain/execution_contracts.py, and what the tool loop of application/tool_loop.py
-- keeps and comes to; what is only measured is left out.
use keviq_core.Prelude.{ℕ, String, Bool, Option, List, ℤ}
use keviq_core.Agents.Invocation.{AgentInvocation, Message, RawCall, Summary}
use keviq_core.Agents.Store.{Tx}
use keviq_core.Agents.Tools.{Response}

-- execution_contracts.py: what the orchestrator asks for, less the model's limits, the tools that the model may
-- use and the causation.
pub record ExecutionRequest : Type 0 where
  pub agent_invocation_id : ℕ
  pub workspace_id : ℕ
  pub task_id : ℕ
  pub run_id : ℕ
  pub step_id : ℕ
  pub correlation_id : ℕ
  pub agent_id : String
  pub model_alias : String
  pub instruction : String
  -- `input_payload.get("sandbox_id")`
  pub sandbox_id : Option String
  pub timeout_ms : ℤ

pub data ExecutionStatus : Type 0 where
  completed failed timed_out waiting_human : ExecutionStatus

pub data OutputPayload : Type 0 where
  output : (output_text : String) → OutputPayload
  waiting : (gated_tool gate_reason : String) (approval_id : Option String) → OutputPayload

pub record ExecutionResult : Type 0 where
  pub agent_invocation_id : ℕ
  pub status : ExecutionStatus
  pub output_payload : OutputPayload
  pub prompt_tokens : ℕ
  pub completion_tokens : ℕ
  pub model_concrete : Option String
  pub started_at : Option ℕ
  pub completed_at : Option ℕ
  pub artifact_id : Option ℕ

-- `ExecutionFailure`, less its message
pub record ExecutionFailure : Type 0 where
  pub agent_invocation_id : ℕ
  pub status : ExecutionStatus
  pub error_code : String
  pub retryable : Bool
  pub failed_at : Option ℕ

pub data Reply : Type 0 where
  succeeds : ExecutionResult → Reply
  fails : ExecutionFailure → Reply

-- `ToolLoopResult`, less the latencies and `early_exit`
pub record LoopResult : Type 0 where
  pub last_response : Option Response
  pub total_prompt_tokens : ℕ
  pub total_completion_tokens : ℕ
  pub all_tool_calls : List RawCall
  pub completed_turns : ℕ
  pub total_tools_called : ℕ
  pub total_tool_failures : ℕ

-- How the loop ends: early with a result for the caller, or with what it has gathered. The invocation, which the
-- loop moves, comes along.
pub data LoopEnd : Type 0 where
  exits : Reply → LoopEnd
  gathers : LoopResult → LoopEnd

abbrev pub End : Type 0
End = LoopEnd × AgentInvocation

abbrev pub Next : Type 0
Next = List Message → LoopResult → AgentInvocation → Tx End

abbrev pub summary : (total_turns : ℕ) → LoopResult → Summary
summary total_turns r = record {
  total_turns = total_turns;
  total_tools_called = r.total_tools_called;
  total_tool_failures = r.total_tool_failures;
}

abbrev pub failure : AgentInvocation → ExecutionStatus → String → Bool → End
failure v status error_code retryable = (
  exits (
      fails record {
        agent_invocation_id = v.id;
        status = status;
        error_code = error_code;
        retryable = retryable;
        failed_at = v.completed_at;
      }),
  v,
)
