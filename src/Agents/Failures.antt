-- ===== src/Agents/Failures.antt =====
-- apps/agent-runtime/src/application: loop_errors.py and gateway_errors.py.
use keviq_core.Prelude.{ℕ, ◌+◌, String, Bool, false, some, List, take, str_eq, if◌then◌else◌}
use keviq_core.Agents.Invocation
use keviq_core.Agents.Invocation.{
  AgentInvocation, Message, user, assistant, tool, RawCall, ErrorInfo, gateway_error,
  budget_exhausted, malformed_tool_calls, all_tools_failed, Summary, Pending,
}
use keviq_core.Agents.Store.{Tx, EventType, save_with_event, ◌>>=◌, ◌>>◌, now, pure, lift}
use keviq_core.Agents.Tools.{World}
use keviq_core.Agents.Contracts.{ExecutionStatus, LoopResult, End, summary, failure}
use keviq_core.Agents.Contracts.{failed}

unfoldable pub handle_budget_exhausted :
    (elapsed_ms budget_ms turns : ℕ) → LoopResult → AgentInvocation → Tx End
handle_budget_exhausted elapsed_ms budget_ms turns r v = do
  finished ← now
  (_, v') ← lift (
      Invocation.mark_timed_out
        (some (budget_exhausted elapsed_ms budget_ms turns (summary turns r))) finished v)
  save_with_event v' EventType.timed_out
  pure (failure v' failed "BUDGET_EXHAUSTED" false)

unfoldable pub handle_malformed_tools : List RawCall → AgentInvocation → Tx End
handle_malformed_tools tool_calls v = do
  finished ← now
  (_, v') ←
      lift (Invocation.mark_failed (some (malformed_tool_calls (take 3 tool_calls))) finished v)
  save_with_event v' EventType.failed
  pure (failure v' failed "MALFORMED_TOOL_CALLS" false)

unfoldable pub handle_all_tools_failed : (turns count : ℕ) → LoopResult → AgentInvocation → Tx End
handle_all_tools_failed turns count r v = do
  finished ← now
  (_, v') ← lift (
      Invocation.mark_failed (some (all_tools_failed turns count (summary (turns + 1) r))) finished
        v)
  save_with_event v' EventType.failed
  pure (failure v' failed "ALL_TOOLS_FAILED" false)

module _ (w : World) where
  -- gateway_errors.py
  unfoldable pub handle_gateway_error :
      (error_code : String) → Bool → (message : String) → AgentInvocation → Tx End
  handle_gateway_error error_code retryable message v =
      let info = some (gateway_error error_code (w.friendly error_code message)) in
      if str_eq error_code "TIMEOUT"
      then (do
        finished ← now
        (_, v') ← lift (Invocation.mark_timed_out info finished v)
        save_with_event v' EventType.timed_out
        pure (failure v' ExecutionStatus.timed_out error_code retryable))
      else (do
        finished ← now
        (_, v') ← lift (Invocation.mark_failed info finished v)
        save_with_event v' EventType.failed
        pure (failure v' ExecutionStatus.failed error_code retryable))
