-- ===== src/Agents/Loop.antt =====
-- apps/agent-runtime/src/application/tool_loop.py. One sequence of readings serves the clock of the day and
-- the monotonic one.
pub mod Replies
pub mod Stops
pub mod Ends
use keviq_core.Prelude.{
  ℕ, zero, suc, ◌+◌, ◌-◌, ◌/◌, ◌==◌, String, Bool, true, false, not, ◌||◌, ◌&&◌, Option, none, some,
  List, [], ◌∷◌, ◌++◌, length, take, is_nil, is_empty, str_eq, ltb, leb, or_else, if◌then◌else◌, ℤ,
}
use keviq_core.Errors.{value_error, Result, ok, err, or_raise}
use keviq_core.Agents.Invocation
use keviq_core.Agents.Invocation.{
  AgentInvocation, Message, user, assistant, tool, RawCall, ErrorInfo, gateway_error,
  budget_exhausted, malformed_tool_calls, all_tools_failed, Summary, Pending,
}
use keviq_core.Agents.Policy.{PolicyResult, allow, warn, gate, evaluate_tool_approval}
use keviq_core.Agents.Store.{
  Tx, Session, Detail, EventType, turn, invokes_model, requests_approval, save_with_event,
  save_payload, ◌>>=◌, ◌>>◌, now, ask, pure, lift,
}
use keviq_core.Agents.Tools.{
  World, ToolInput, Response, GatewayReply, answered, gateway_failed, ToolResult, tool_name,
  arguments, call_id, is_given, shell_code, validate_tool_calls, execute_tool,
}
use keviq_core.Agents.Contracts.{
  ExecutionRequest, ExecutionStatus, OutputPayload, output, waiting, ExecutionResult,
  ExecutionFailure, Reply, succeeds, fails, LoopResult, LoopEnd, exits, gathers, End, Next, summary,
  failure,
}
use keviq_core.Agents.Failures.{
  handle_budget_exhausted, handle_malformed_tools, handle_all_tools_failed, handle_gateway_error,
}
use keviq_core.Agents.Approvals.{policy_of, is_gated, first_gated, request_tool_approval, pause}
use keviq_core.Agents.Calls.{
  Turn, elapsed, content_of, read_sandbox, is_completed, with_result, with_skip, dispatch_one,
  dispatch_tools, all_failed,
}

-- `request.timeout_ms if request.timeout_ms > 0 else INVOCATION_BUDGET_MS`
abbrev pub budget_of : (default : ℕ) → ℤ → ℕ
budget_of default (ℤ.pos n) = if ltb 0 n then n else default
budget_of default (ℤ.negsuc n) = default

-- `… or None`
abbrev pub non_empty : Option String → Option String
non_empty o = if is_given o then o else none

abbrev pub calls_given : Option (List RawCall) → List RawCall
calls_given none = []
calls_given (some calls) = calls

module _ (w : World) where
  -- What follows the tools of a turn.
  unfoldable pub finish_turn :
      Next → (turns count : ℕ) → List Message → LoopResult → AgentInvocation → Turn → Tx End
  finish_turn again turns count messages r v done =
      if all_failed w count done then handle_all_tools_failed turns count r v else (do
        (_, v') ← lift (Invocation.resume_from_wait v)
        save_payload v' EventType.turn_completed
            (turn v'.id v'.run_id v'.task_id v'.workspace_id turns count done.failures done.details)
        again (messages ++ done.messages) (record r { completed_turns = turns + 1 }) v')

  -- The tools of a turn, once none is gated.
  unfoldable pub run_calls :
      ExecutionRequest
      → Next
      → (start budget_ms turns : ℕ) → List Message
      → List RawCall
      → LoopResult
      → Response
      → AgentInvocation
      → Tx End
  run_calls q again start budget_ms turns messages calls r response v = do
    (_, v') ← lift (Invocation.mark_waiting_tool v)
    save_with_event v' EventType.waiting_tool
    sandbox_id ← lift (read_sandbox w.parse_uuid q.sandbox_id)
    done ← dispatch_tools w start budget_ms sandbox_id turns calls
    finish_turn again turns (length calls)
        (messages ++ assistant (non_empty response.output_text) calls ∷ [])
        (record r {
          total_tools_called = r.total_tools_called + length calls;
          total_tool_failures = r.total_tool_failures + done.failures;
        })
        v' done

  -- The model's valid tool calls.
  unfoldable pub use_calls :
      ExecutionRequest
      → Next
      → (start budget_ms turns : ℕ) → List Message
      → List RawCall
      → LoopResult
      → Response
      → AgentInvocation
      → Tx End
  use_calls q again start budget_ms turns messages calls r response v = do
    found ← lift (first_gated w calls)
    elim found [
      | some tc ↦ pause w q calls messages response tc v
      | none ↦
          run_calls q again start budget_ms turns messages calls
            (record r { all_tool_calls = r.all_tool_calls ++ calls }) response v
    ]

  abbrev pub wants_tools : Response → Bool
  wants_tools response =
      str_eq (or_else response.finish_reason "stop") "tool_calls"
      && not (is_nil (calls_given response.tool_calls))
      && w.has_execution_service

  -- What the model has answered.
  unfoldable pub use_response :
      ExecutionRequest
      → Next
      → (start budget_ms turns : ℕ) → List Message
      → LoopResult
      → Response
      → AgentInvocation
      → Tx End
  use_response q again start budget_ms turns messages r response v =
      let calls = calls_given response.tool_calls in
      if not (wants_tools response)
      then pure (gathers r, v)
      else if is_nil (validate_tool_calls calls)
      then handle_malformed_tools calls v
      else use_calls q again start budget_ms turns messages (validate_tool_calls calls) r response v

  abbrev pub counted : Response → LoopResult → LoopResult
  counted response r = record r {
    last_response = some response;
    total_prompt_tokens = r.total_prompt_tokens + response.prompt_tokens;
    total_completion_tokens = r.total_completion_tokens + response.completion_tokens;
  }

  unfoldable pub after_model :
      ExecutionRequest
      → Next
      → (start budget_ms turns : ℕ) → List Message
      → LoopResult
      → AgentInvocation
      → GatewayReply
      → Tx End
  after_model q again start budget_ms turns messages r v (answered response) =
      use_response q again start budget_ms turns messages (counted response r) response v
  after_model q again start budget_ms turns messages r v (gateway_failed code retryable message) =
      handle_gateway_error w (or_else code "GATEWAY_ERROR") retryable message v

  abbrev pub model_timeout : (remaining_ms : ℕ) → ℕ
  model_timeout remaining_ms = if ltb remaining_ms 60000 then remaining_ms else 60000

  unfoldable pub ask_model : ExecutionRequest → Next → (start budget_ms turns elapsed_ms : ℕ) → Next
  unfolding ask
  ask_model q again start budget_ms turns elapsed_ms messages r v = do
    ask (invokes_model messages (model_timeout (budget_ms - elapsed_ms)))
    λ s. after_model q again start budget_ms turns messages r v (w.gateway s.port_calls) s

  -- One turn; `again` is the next.
  unfoldable pub run_turn : ExecutionRequest → Next → (start budget_ms turns : ℕ) → Next
  run_turn q again start budget_ms turns messages r v = do
    t ← now
    (if leb budget_ms (elapsed start t)
        then handle_budget_exhausted (elapsed start t) budget_ms turns r v
        else ask_model q again start budget_ms turns (elapsed start t) messages r v)

  -- `for turn in range(MAX_TOOL_TURNS)`, with the turns that are left.
  unfoldable pub run_turns : ExecutionRequest → (left start budget_ms turns : ℕ) → Next
  run_turns q zero start budget_ms turns messages r v = pure (gathers r, v)
  run_turns q (suc left) start budget_ms turns messages r v =
      run_turn q (run_turns q left start budget_ms (turns + 1)) start budget_ms turns messages r v

  abbrev pub no_result : LoopResult
  no_result = record {
    last_response = none;
    total_prompt_tokens = 0;
    total_completion_tokens = 0;
    all_tool_calls = [];
    completed_turns = 0;
    total_tools_called = 0;
    total_tool_failures = 0;
  }

  abbrev pub given_messages : Option (List Message) → List Message
  given_messages none = []
  given_messages (some messages) = messages

  unfoldable pub run_tool_loop : ExecutionRequest → AgentInvocation → Tx End
  run_tool_loop q v = do
    start ← now
    run_turns q w.max_tool_turns start (budget_of w.invocation_budget_ms q.timeout_ms) 0
        (given_messages v.input_messages) no_result v
