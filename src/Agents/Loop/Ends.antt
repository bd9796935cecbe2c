-- ===== src/Agents/Loop/Ends.antt =====
-- How the tool loop of application/tool_loop.py ends.
use keviq_core.Prelude.{
  String, ◌∷◌, List, [], some, none, ℕ, zero, suc, ◌+◌, ◌≡◌, refl, ap, Bool, true, false, Option,
  List, [], ◌∷◌, is_nil, leb, Bool-cases, Option-cases, inl, inr,
}
use keviq_core.Errors.{ok}
use keviq_core.Transaction.Returns.{Returns, returned, Returns-bind, Returns-step, Returns-weaken}
use keviq_core.Agents.Invocation.{RawCall, AgentInvocation, InvocationStatus, Message, RawCall}
use keviq_core.Agents.Invocation.Lifecycle.{mark_waiting_tool-Moved, resume_from_wait-Moved}
use keviq_core.Agents.Store.{Session, Tx, EventType, ask}
use keviq_core.Agents.Tools.{
  is_rejected, World, tool_name, arguments, Response, GatewayReply, answered, gateway_failed,
  validate_tool_calls, execute_tool, in_sandbox, call_tool, guard_input,
}
use keviq_core.Agents.Contracts.{ExecutionRequest, LoopResult, Next}
use keviq_core.Agents.Calls.{Turn, read_sandbox, elapsed, dispatch_one, dispatch_tools, all_failed}
use keviq_core.Agents.Approvals.{first_gated, is_gated, policy_of}
use keviq_core.Agents.Loop.{
  finish_turn, run_calls, use_calls, use_response, after_model, ask_model, run_turn, run_turns,
  wants_tools, calls_given,
}
use keviq_core.Agents.Loop.Replies.{
  save_payload-Returns, save_with_event-Returns, EndOk, IsRunning, Moved-Returns, EndOk-id,
}
use keviq_core.Agents.Loop.Stops.{
  handle_budget_exhausted-Returns, handle_malformed_tools-Returns, handle_all_tools_failed-Returns,
  handle_gateway_error-Returns, pause-Returns,
}

module _ (w : World)
    (dicts : (t : String)
      → ((w.parse_input t).is_read ≡ true) × ((w.parse_input t).is_dict ≡ true)) where
  guard_input-ok : (tc : RawCall) → (b : Bool) × (guard_input w tc ≡ ok b)
  unfolding guard_input
  guard_input-ok tc = (
    is_rejected (tool_name tc) (w.parse_input (arguments tc)),
    rw ((dicts (arguments tc)).0, (dicts (arguments tc)).1) refl,
  )

  first_gated-ok : (calls : List RawCall) → (o : Option RawCall) × (first_gated w calls ≡ ok o)
  unfolding first_gated
  first_gated-ok [] = (none, refl)
  first_gated-ok (tc ∷ rest) = elim (Bool-cases (is_gated w (policy_of w tc))) [
    | inl stop ↦ (some tc, rw ((dicts (arguments tc)).0, (dicts (arguments tc)).1, stop) refl)
    | inr free ↦
        let (o, e) = first_gated-ok rest in
        (o, rw ((dicts (arguments tc)).0, (dicts (arguments tc)).1, free) e)
  ]

  execute_tool-Returns :
      (tc : RawCall) (sandbox_id : Option ℕ) (attempt_index : ℕ) (s : Session)
      → Returns (λ _ s'. Unit {0}) (execute_tool w tc sandbox_id attempt_index s)
  unfolding execute_tool in_sandbox call_tool
  execute_tool-Returns tc sandbox_id attempt_index s =
      let (rejected, e) = guard_input-ok tc in
      elim (Bool-cases rejected) [
        | inl bad ↦ rw (e, bad) (returned _ _ tt)
        | inr fine ↦
            rw (e, fine)
              (elim (Option-cases sandbox_id) [
                | inl missing ↦ rw (missing, in_sandbox) (returned _ _ tt)
                | inr (id, given) ↦
                    rw (given, in_sandbox)
                      (elim (Bool-cases w.has_execution_service) [
                        | inl has ↦ rw has (returned _ _ tt)
                        | inr without ↦ rw without (returned _ _ tt)
                      ])
              ])
      ]

  dispatch_one-Returns :
      (late : Bool) (tc : RawCall) (sandbox_id : Option ℕ) (attempt_index : ℕ) (others : Tx Turn)
      (s : Session)
      → ((t : Session) → Returns (λ _ s'. Unit {0}) (others t))
      → Returns (λ _ s'. Unit {0}) (dispatch_one w late tc sandbox_id attempt_index others s)
  unfolding dispatch_one
  dispatch_one-Returns true tc sandbox_id attempt_index others s h =
      Returns-bind (h s) (λ done t _. returned _ _ tt)
  dispatch_one-Returns false tc sandbox_id attempt_index others s h =
      Returns-bind (execute_tool-Returns tc sandbox_id attempt_index s)
        (λ r t _. Returns-bind (h t) (λ done t' _. returned _ _ tt))

  dispatch_tools-Returns :
      (start budget_ms : ℕ) (sandbox_id : Option ℕ) (attempt_index : ℕ) (calls : List RawCall)
      (s : Session)
      → Returns
          (λ _ s'. Unit {0})
          (dispatch_tools w start budget_ms sandbox_id attempt_index calls s)
  unfolding dispatch_tools
  dispatch_tools-Returns start budget_ms sandbox_id attempt_index [] s = returned _ _ tt
  dispatch_tools-Returns start budget_ms sandbox_id attempt_index (tc ∷ rest) s =
      dispatch_one-Returns _ tc sandbox_id attempt_index _ _
        (dispatch_tools-Returns start budget_ms sandbox_id attempt_index rest)

  -- The next turn ends well.
  abbrev IsGood : Next → Type 0
  IsGood again =
      (messages : List Message) (r : LoopResult) (v : AgentInvocation) (s : Session)
      → IsRunning v
      → Returns (λ e s'. EndOk v.id e s') (again messages r v s)

  finish_turn-Returns :
      (again : Next) (turns count : ℕ) (messages : List Message) (r : LoopResult)
      (v : AgentInvocation) (done : Turn) (s : Session)
      → IsGood again
      → v.invocation_status ≡ InvocationStatus.waiting_tool
      → Returns (λ e s'. EndOk v.id e s') (finish_turn w again turns count messages r v done s)
  unfolding finish_turn
  finish_turn-Returns again turns count messages r v done s good waits =
      elim (Bool-cases (all_failed w count done)) [
        | inl over ↦ rw over (handle_all_tools_failed-Returns turns count r v s waits)
        | inr on ↦ rw on (
            Moved-Returns _ _ (resume_from_wait-Moved v waits) (λ u status id.
              Returns-bind (save_payload-Returns u EventType.turn_completed _ _) (λ _ t saved.
                Returns-weaken (good _ _ u t status) (λ e s' ok. EndOk-id u.id v.id e s' id ok))))
      ]

  run_calls-Returns :
      (q : ExecutionRequest) (again : Next) (start budget_ms turns : ℕ) (messages : List Message)
      (calls : List RawCall) (r : LoopResult) (response : Response) (sandbox_id : Option ℕ)
      (v : AgentInvocation) (s : Session)
      → IsGood again
      → read_sandbox w.parse_uuid q.sandbox_id ≡ ok sandbox_id
      → IsRunning v
      → Returns
          (λ e s'. EndOk v.id e s')
          (run_calls w q again start budget_ms turns messages calls r response v s)
  unfolding run_calls
  run_calls-Returns q again start budget_ms turns messages calls r response sandbox_id v s good
        given run =
      Moved-Returns _ _ (mark_waiting_tool-Moved v run) (λ u status id.
        Returns-bind (save_with_event-Returns u EventType.waiting_tool _) (λ _ t saved.
          Returns-step _ sandbox_id t (ap (λ o. (o, t)) given) (
            Returns-bind (dispatch_tools-Returns start budget_ms sandbox_id turns calls t)
              (λ done t' _.
                Returns-weaken (finish_turn-Returns again turns _ _ _ u done t' good status)
                  (λ e s' ok. EndOk-id u.id v.id e s' id ok)))))

  module _ (q : ExecutionRequest) (sandbox_id : Option ℕ)
      (given : read_sandbox w.parse_uuid q.sandbox_id ≡ ok sandbox_id) where
    use_response-Returns :
        (again : Next) (start budget_ms turns : ℕ) (messages : List Message) (r : LoopResult)
        (response : Response) (v : AgentInvocation) (s : Session)
        → IsGood again
        → IsRunning v
        → Returns
            (λ e s'. EndOk v.id e s')
            (use_response w q again start budget_ms turns messages r response v s)
    unfolding use_response use_calls
    use_response-Returns again start budget_ms turns messages r response v s good run =
        let calls = calls_given response.tool_calls in
        let (found, e) = first_gated-ok (validate_tool_calls calls) in
        elim (Bool-cases (wants_tools w response)) [
          | inr no_tools ↦ rw no_tools (returned _ _ (refl, run))
          | inl tools ↦ rw tools (elim (Bool-cases (is_nil (validate_tool_calls calls))) [
            | inl malformed ↦ rw malformed (handle_malformed_tools-Returns calls v s run)
            | inr fine ↦ rw fine (elim (Option-cases found) [
              | inr (tc, gated) ↦ rw (e, gated) (pause-Returns w q _ messages response tc v s run)
              | inl free ↦
                  rw (e, free)
                    (run_calls-Returns q again start budget_ms turns messages _ _ response
                      sandbox_id v s good given run)
            ])
          ])
        ]

    after_model-Returns :
        (again : Next) (start budget_ms turns : ℕ) (messages : List Message) (r : LoopResult)
        (v : AgentInvocation) (reply : GatewayReply) (s : Session)
        → IsGood again
        → IsRunning v
        → Returns
            (λ e s'. EndOk v.id e s')
            (after_model w q again start budget_ms turns messages r v reply s)
    unfolding after_model
    after_model-Returns again start budget_ms turns messages r v (answered response) s good run =
        use_response-Returns again start budget_ms turns messages _ response v s good run
    after_model-Returns again start budget_ms turns messages r v
          (gateway_failed code retryable message) s good run =
        handle_gateway_error-Returns w _ retryable message v s run

    run_turn-Returns :
        (again : Next) (start budget_ms turns : ℕ)
        → IsGood again
        → IsGood (run_turn w q again start budget_ms turns)
    unfolding run_turn ask_model ask
    run_turn-Returns again start budget_ms turns good messages r v s run =
        elim (Bool-cases (leb budget_ms (elapsed start (s.clock s.reads)))) [
          | inl late ↦ rw late (handle_budget_exhausted-Returns _ budget_ms turns r v _ run)
          | inr time ↦
              rw time (after_model-Returns again start budget_ms turns messages r v _ _ good run)
        ]

    pub run_turns-Returns :
        (left start budget_ms turns : ℕ) → IsGood (run_turns w q left start budget_ms turns)
    unfolding run_turns
    run_turns-Returns zero start budget_ms turns messages r v s run = returned _ _ (refl, run)
    run_turns-Returns (suc left) start budget_ms turns messages r v s run =
        run_turn-Returns (run_turns w q left start budget_ms (turns + 1)) start budget_ms turns
          (run_turns-Returns left start budget_ms (turns + 1)) messages r v s run
