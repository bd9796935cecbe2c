-- ===== src/Agents/Gate/Turns.antt =====
-- The tools that need an approval in the turns of application/tool_loop.py.
use keviq_core.Prelude.{
  some, none, ℕ, zero, suc, ◌+◌, ◌≡◌, String, Bool, List, All, is_nil, leb, str_eq, Bool-cases, inl,
  inr,
}
use keviq_core.Transaction.Keeps.{Leaves, leaves, Leaves-bind}
use keviq_core.Agents.Invocation
use keviq_core.Agents.Invocation.{AgentInvocation, Message, RawCall}
use keviq_core.Agents.Policy.{gate_mode}
use keviq_core.Agents.Store.{Session, invokes_model, requests_approval, EventType, ask}
use keviq_core.Agents.Tools.{
  World, Response, GatewayReply, answered, gateway_failed, validate_tool_calls,
}
use keviq_core.Agents.Contracts.{ExecutionRequest, LoopResult, Next}
use keviq_core.Agents.Calls.{Turn, read_sandbox, elapsed, all_failed}
use keviq_core.Agents.Failures.{
  handle_budget_exhausted, handle_malformed_tools, handle_all_tools_failed, handle_gateway_error,
}
use keviq_core.Agents.Approvals.{first_gated, pause, request_tool_approval}
use keviq_core.Agents.Loop.{
  finish_turn, run_calls, use_calls, use_response, after_model, ask_model, run_turn, run_turns,
  wants_tools, calls_given,
}
use keviq_core.Errors.{Result-cases}
use keviq_core.Agents.Gate.{
  Safe, Free, asked, save-Leaves, save_event-Leaves, move-Leaves, first_gated-none,
  dispatch_tools-Leaves,
}

module _ (w : World) where
  handle_budget_exhausted-Leaves :
      (elapsed_ms budget_ms turns : ℕ) (r : LoopResult) (v : AgentInvocation) (s : Session)
      → Safe s
      → Leaves Safe (handle_budget_exhausted elapsed_ms budget_ms turns r v s)
  unfolding handle_budget_exhausted
  handle_budget_exhausted-Leaves elapsed_ms budget_ms turns r v s h =
      move-Leaves w _ (Invocation.mark_timed_out _ _ v) _ h (λ (_, u) t safe.
        Leaves-bind (save_event-Leaves u _ t safe) (λ _ t' safe'. leaves _ t' safe'))

  handle_malformed_tools-Leaves :
      (calls : List RawCall) (v : AgentInvocation) (s : Session)
      → Safe s
      → Leaves Safe (handle_malformed_tools calls v s)
  unfolding handle_malformed_tools
  handle_malformed_tools-Leaves calls v s h =
      move-Leaves w _ (Invocation.mark_failed _ _ v) _ h (λ (_, u) t safe.
        Leaves-bind (save_event-Leaves u _ t safe) (λ _ t' safe'. leaves _ t' safe'))

  handle_all_tools_failed-Leaves :
      (turns count : ℕ) (r : LoopResult) (v : AgentInvocation) (s : Session)
      → Safe s
      → Leaves Safe (handle_all_tools_failed turns count r v s)
  unfolding handle_all_tools_failed
  handle_all_tools_failed-Leaves turns count r v s h =
      move-Leaves w _ (Invocation.mark_failed _ _ v) _ h (λ (_, u) t safe.
        Leaves-bind (save_event-Leaves u _ t safe) (λ _ t' safe'. leaves _ t' safe'))

  handle_gateway_error-Leaves :
      (code : String) (retryable : Bool) (message : String) (v : AgentInvocation) (s : Session)
      → Safe s
      → Leaves Safe (handle_gateway_error w code retryable message v s)
  unfolding handle_gateway_error
  handle_gateway_error-Leaves code retryable message v s h =
      elim (Bool-cases (str_eq code "TIMEOUT")) [
        | inl late ↦ rw late (
            move-Leaves w _ (Invocation.mark_timed_out _ _ v) _ h (λ (_, u) t safe.
              Leaves-bind (save_event-Leaves u _ t safe) (λ _ t' safe'. leaves _ t' safe')))
        | inr other ↦ rw other (
            move-Leaves w _ (Invocation.mark_failed _ _ v) _ h (λ (_, u) t safe.
              Leaves-bind (save_event-Leaves u _ t safe) (λ _ t' safe'. leaves _ t' safe')))
      ]

  request_tool_approval-Leaves :
      (id : ℕ) (name : String) (s : Session)
      → Safe s
      → Leaves Safe (request_tool_approval w id name s)
  unfolding request_tool_approval ask
  request_tool_approval-Leaves id name s h = elim (Bool-cases w.has_approval_service) [
    | inl has ↦ rw has (leaves _ _ (asked (requests_approval id name) s tt h))
    | inr without ↦ rw without (leaves _ _ h)
  ]

  pause-Leaves :
      (q : ExecutionRequest) (calls : List RawCall) (messages : List Message) (response : Response)
      (tc : RawCall) (v : AgentInvocation) (s : Session)
      → Safe s
      → Leaves Safe (pause w q calls messages response tc v s)
  unfolding pause
  pause-Leaves q calls messages response tc v s h =
      move-Leaves w _ (Invocation.mark_waiting_human _ v) _ h (λ (_, u) t safe.
        Leaves-bind (save_event-Leaves u _ t safe) (λ _ t' safe'.
          Leaves-bind (request_tool_approval-Leaves _ _ t' safe')
            (λ a t'' safe''. leaves _ t'' safe'')))

  abbrev pub IsSafe : Next → Type 0
  IsSafe again =
      (messages : List Message) (r : LoopResult) (v : AgentInvocation) (s : Session)
      → Safe s
      → Leaves Safe (again messages r v s)

  finish_turn-Leaves :
      (again : Next) (turns count : ℕ) (messages : List Message) (r : LoopResult)
      (v : AgentInvocation) (done : Turn) (s : Session)
      → IsSafe again
      → Safe s
      → Leaves Safe (finish_turn w again turns count messages r v done s)
  unfolding finish_turn
  finish_turn-Leaves again turns count messages r v done s k h =
      elim (Bool-cases (all_failed w count done)) [
        | inl over ↦ rw over (handle_all_tools_failed-Leaves turns count r v s h)
        | inr on ↦ rw on (
            move-Leaves w _ (Invocation.resume_from_wait v) s h (λ (_, u) t safe.
              Leaves-bind (save-Leaves u _ _ t safe) (λ _ t' safe'. k _ _ u t' safe')))
      ]

  run_calls-Leaves :
      (q : ExecutionRequest) (again : Next) (start budget_ms turns : ℕ) (messages : List Message)
      (calls : List RawCall) (r : LoopResult) (response : Response) (v : AgentInvocation)
      (s : Session)
      → IsSafe again
      → All (Free w) calls
      → Safe s
      → Leaves Safe (run_calls w q again start budget_ms turns messages calls r response v s)
  unfolding run_calls
  run_calls-Leaves q again start budget_ms turns messages calls r response v s k free h =
      move-Leaves w _ (Invocation.mark_waiting_tool v) s h (λ (_, u) t safe.
        Leaves-bind (save_event-Leaves u EventType.waiting_tool t safe) (λ _ t' safe'.
          move-Leaves w _ (read_sandbox w.parse_uuid q.sandbox_id) t' safe'
            (λ sandbox_id t'' safe''.
              Leaves-bind
                (dispatch_tools-Leaves w start budget_ms sandbox_id turns calls t'' free safe'')
                (λ done t₃ safe₃. finish_turn-Leaves again turns _ _ _ u done t₃ k safe₃))))

  module _ (q : ExecutionRequest) (mode : w.approval_mode ≡ gate_mode) where
    use_response-Leaves :
        (again : Next) (start budget_ms turns : ℕ) (messages : List Message) (r : LoopResult)
        (response : Response) (v : AgentInvocation) (s : Session)
        → IsSafe again
        → Safe s
        → Leaves Safe (use_response w q again start budget_ms turns messages r response v s)
    unfolding use_response use_calls
    use_response-Leaves again start budget_ms turns messages r response v s k h =
        let calls = calls_given response.tool_calls in
        elim (Bool-cases (wants_tools w response)) [
          | inr no_tools ↦ rw no_tools (leaves _ _ h)
          | inl tools ↦ rw tools (elim (Bool-cases (is_nil (validate_tool_calls calls))) [
            | inl malformed ↦ rw malformed (handle_malformed_tools-Leaves calls v s h)
            | inr fine ↦ rw fine (elim (Result-cases (first_gated w (validate_tool_calls calls))) [
              | inr (e, raised) ↦ rw raised (leaves _ _ h)
              | inl (some tc, stop) ↦ rw stop (pause-Leaves q _ messages response tc v s h)
              | inl (none, free) ↦ rw free (
                  run_calls-Leaves q again start budget_ms turns messages _ _ response v s k
                    (first_gated-none w (validate_tool_calls calls) mode free) h)
            ])
          ])
        ]

    after_model-Leaves :
        (again : Next) (start budget_ms turns : ℕ) (messages : List Message) (r : LoopResult)
        (v : AgentInvocation) (reply : GatewayReply) (s : Session)
        → IsSafe again
        → Safe s
        → Leaves Safe (after_model w q again start budget_ms turns messages r v reply s)
    unfolding after_model
    after_model-Leaves again start budget_ms turns messages r v (answered response) s k h =
        use_response-Leaves again start budget_ms turns messages _ response v s k h
    after_model-Leaves again start budget_ms turns messages r v
          (gateway_failed code retryable message) s k h =
        handle_gateway_error-Leaves _ retryable message v s h

    run_turn-Leaves :
        (again : Next) (start budget_ms turns : ℕ)
        → IsSafe again
        → IsSafe (run_turn w q again start budget_ms turns)
    unfolding run_turn ask_model ask
    run_turn-Leaves again start budget_ms turns k messages r v s h =
        elim (Bool-cases (leb budget_ms (elapsed start (s.clock s.reads)))) [
          | inl late ↦ rw late (handle_budget_exhausted-Leaves _ budget_ms turns r v _ h)
          | inr time ↦ rw time (
              after_model-Leaves again start budget_ms turns messages r v _ _ k
                (asked (invokes_model messages _) s tt h))
        ]

    pub run_turns-Leaves :
        (left start budget_ms turns : ℕ) → IsSafe (run_turns w q left start budget_ms turns)
    unfolding run_turns
    run_turns-Leaves zero start budget_ms turns messages r v s h = leaves _ _ h
    run_turns-Leaves (suc left) start budget_ms turns messages r v s h =
        run_turn-Leaves (run_turns w q left start budget_ms (turns + 1)) start budget_ms turns
          (run_turns-Leaves left start budget_ms (turns + 1)) messages r v s h
