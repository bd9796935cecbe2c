-- ===== src/Agents/Approvals.antt =====
-- apps/agent-runtime/src/application/approval_gate.py
use keviq_core.Prelude.{
  not, ◌&&◌, str_eq, ℕ, String, Bool, true, false, Option, none, some, List, [], ◌∷◌, if◌then◌else◌,
}
use keviq_core.Agents.Invocation
use keviq_core.Agents.Invocation.{
  AgentInvocation, Message, user, assistant, tool, RawCall, ErrorInfo, gateway_error,
  budget_exhausted, malformed_tool_calls, all_tools_failed, Summary, Pending,
}
use keviq_core.Errors.{Result, ok, err, attribute_error, value_error}
use keviq_core.Agents.Policy.{
  ApprovalMode, none_mode, PolicyResult, allow, warn, gate, evaluate_tool_approval,
}
use keviq_core.Agents.Store.{
  Tx, EventType, requests_approval, save_with_event, ◌>>=◌, ◌>>◌, ask, pure, lift,
}
use keviq_core.Agents.Tools.{World, Response, tool_name, arguments, shell_code}
use keviq_core.Agents.Contracts.{ExecutionRequest, ExecutionStatus, waiting, succeeds, exits, End}

abbrev pub is_none_mode : ApprovalMode → Bool
is_none_mode none_mode = true
is_none_mode _ = false

module _ (w : World) where
  abbrev pub policy_of : RawCall → PolicyResult
  policy_of tc =
      evaluate_tool_approval w.approval_mode (tool_name tc)
        (shell_code (w.parse_input (arguments tc)))

  abbrev pub is_gated : PolicyResult → Bool
  is_gated r = elim r.decision [ gate ↦ true | warn ↦ false | allow ↦ false ]

  -- `_assess_tool_risk` reaches `tool_input.get`, of what has no such method.
  abbrev pub is_unreadable : RawCall → Bool
  is_unreadable tc =
      not (w.parse_input (arguments tc)).is_dict
      && not (is_none_mode w.approval_mode)
      && str_eq (tool_name tc) "shell.exec"

  -- The first tool that the policy gates.
  unfoldable pub first_gated : List RawCall → Result (Option RawCall)
  first_gated [] = ok none
  first_gated (tc ∷ rest) =
      let later = first_gated rest in
      if not (w.parse_input (arguments tc)).is_read
      then err value_error
      else if is_unreadable tc
      then err attribute_error
      else if is_gated (policy_of tc)
      then ok (some tc)
      else later

  -- `_request_tool_approval`
  unfoldable pub request_tool_approval : (invocation_id : ℕ) → (name : String) → Tx (Option String)
  unfolding ask
  request_tool_approval invocation_id name =
      if w.has_approval_service
      then (do
        ask (requests_approval invocation_id name)
        λ s. pure (elim (w.request_approval s.port_calls) [ none ↦ none | some id ↦ id ]) s)
      else pure none

  -- `check_tool_approval_gate`, once a tool is gated
  unfoldable pub pause :
      ExecutionRequest
      → (calls : List RawCall) → List Message
      → Response
      → RawCall
      → AgentInvocation
      → Tx End
  pause q calls messages r tc v = do
    (_, v') ← lift (
        Invocation.mark_waiting_human
          (some record {
            tool_calls = calls;
            messages = messages;
            output_text = r.output_text;
            prompt_tokens = r.prompt_tokens;
            completion_tokens = r.completion_tokens;
            sandbox_id = q.sandbox_id;
            gated_tool_name = tool_name tc;
            gated_tool_input_preview = (w.parse_input (arguments tc)).preview;
            gate_reason = (policy_of tc).reason;
          })
          v)
    save_with_event v' EventType.waiting_human
    approval_id ← request_tool_approval v'.id (tool_name tc)
    pure (
      exits (
          succeeds record {
            agent_invocation_id = v'.id;
            status = ExecutionStatus.waiting_human;
            output_payload = waiting (tool_name tc) (policy_of tc).reason approval_id;
            prompt_tokens = 0;
            completion_tokens = 0;
            model_concrete = none;
            started_at = v'.started_at;
            completed_at = none;
            artifact_id = none;
          }),
      v',
    )
