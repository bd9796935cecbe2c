-- ===== src/Agents/Gate.antt =====
-- The tools that need an approval in what `execute` of apps/agent-runtime/src/application/execution_handler.py
-- asks of other services.
mod Turns
pub mod Executes
use keviq_core.Prelude.{
  ℕ, zero, suc, ◌+◌, ◌≡◌, ◌≢◌, refl, sym, ap, ◌∙◌, String, Bool, true, false, not, ◌||◌, Option,
  none, some, List, [], ◌∷◌, ◌++◌, All, All-append, is_nil, is_blank, leb, str_eq, is_some,
  Bool-cases, Option-cases, inl, inr, arith,
}
use keviq_core.Errors.{Error, Result, ok, err, Result-cases}
use keviq_core.Transaction.Keeps.{Leaves, leaves, Leaves-bind, Leaves-inv}
use keviq_core.Agents.Invocation
use keviq_core.Agents.Invocation.{AgentInvocation, Message, RawCall}
use keviq_core.Agents.Policy.{ApprovalMode, gate_mode, is_gated_tool, evaluate_tool_approval, gated}
use keviq_core.Agents.Store.{
  Session, Tx, continue, ServiceCall, invokes_model, calls_tool, requests_approval,
  registers_artifact, begins_writing, finalizes_artifact, fails_artifact, EventType, Payload,
  save_payload, save_with_event, ask,
}
use keviq_core.Agents.Tools.{
  World, Response, GatewayReply, answered, gateway_failed, tool_name, arguments,
  validate_tool_calls, execute_tool, in_sandbox, call_tool, guard_input,
}
use keviq_core.Agents.Contracts.{ExecutionRequest, LoopResult, LoopEnd, exits, gathers, End, Next}
use keviq_core.Agents.Calls.{Turn, read_sandbox, elapsed, dispatch_one, dispatch_tools, all_failed}
use keviq_core.Agents.Failures.{
  handle_budget_exhausted, handle_malformed_tools, handle_all_tools_failed, handle_gateway_error,
}
use keviq_core.Agents.Approvals.{
  is_unreadable, policy_of, is_gated, first_gated, pause, request_tool_approval,
}
use keviq_core.Agents.Loop.{
  finish_turn, run_calls, use_calls, use_response, after_model, ask_model, run_turn, run_turns,
  run_tool_loop, wants_tools, calls_given,
}
use keviq_core.Agents.Handler.{
  Started, set_running, give_up, or_give_up, fill, after_register, create_artifact_best_effort,
  startup_fails, finish, proceed, execute,
}

-- Neither of the two tools that take any code.
abbrev pub IsHarmless : (name : String) → Type 0
IsHarmless name = (str_eq name "shell.exec" ≡ false) × (str_eq name "python.run_script" ≡ false)

-- Not the run of one of them.
abbrev pub IsUngated : ServiceCall → Type 0
IsUngated (calls_tool _ name _) = IsHarmless name
IsUngated _ = Unit {0}

abbrev pub Safe : Session → Type 0
Safe s = All IsUngated s.port_calls

true_ne_false : ◌≢◌ {A = Bool} true false
true_ne_false e = cc

ungated_tool : (name : String) → is_gated_tool name ≡ false → IsHarmless name
ungated_tool name h = elim (Bool-cases (str_eq name "shell.exec")) [
  | inl bad ↦ absurd (true_ne_false (sym (rw bad refl) ∙ h))
  | inr free ↦ (free, rw free at h)
]

asked :
    (c : ServiceCall) (s : Session) → IsUngated c → Safe s → All IsUngated (s.port_calls ++ c ∷ [])
asked c s u h = All-append IsUngated s.port_calls (c ∷ []) h (u, tt)

save-Leaves :
    (v : AgentInvocation) (e : EventType) (p : Payload) (s : Session)
    → Safe s
    → Leaves Safe (save_payload v e p s)
unfolding save_payload
save-Leaves v e p s h = leaves _ _ h

some_ne_none : {tc : RawCall} → ok (some tc) ≢ ok none
some_ne_none e = cc

err_ne_ok : {e : Error} {o : Option RawCall} → err e ≢ ok o
err_ne_ok e = cc

save_event-Leaves :
    (v : AgentInvocation) (e : EventType) (s : Session)
    → Safe s
    → Leaves Safe (save_with_event v e s)
unfolding save_with_event
save_event-Leaves v e s h = save-Leaves v e _ s h

module _ (w : World) where
  gates :
      (mode : ApprovalMode) (name code : String)
      → mode ≡ gate_mode
      → is_gated_tool name ≡ true
      → is_gated w (evaluate_tool_approval mode name code) ≡ true
  unfolding evaluate_tool_approval
  gates mode name code e g = rw (e, g) refl

  -- A tool that the policy lets through is not a gated one.
  ungated :
      (tc : RawCall)
      → w.approval_mode ≡ gate_mode
      → is_gated w (policy_of w tc) ≡ false
      → IsHarmless (tool_name tc)
  ungated tc mode free = elim (Bool-cases (is_gated_tool (tool_name tc))) [
    | inr fine ↦ ungated_tool (tool_name tc) fine
    | inl bad ↦
        let gated : is_gated w (policy_of w tc) ≡ true =
          gates w.approval_mode (tool_name tc) _ mode bad in
        absurd (true_ne_false (sym gated ∙ free))
  ]

  abbrev Free : RawCall → Type 0
  Free tc = IsHarmless (tool_name tc)

  first_gated-none :
      (calls : List RawCall)
      → w.approval_mode ≡ gate_mode
      → first_gated w calls ≡ ok none
      → All Free calls
  unfolding first_gated
  first_gated-none [] mode h = tt
  first_gated-none (tc ∷ rest) mode h = elim (Bool-cases (w.parse_input (arguments tc)).is_read) [
    | inr unread ↦ absurd (err_ne_ok (rw unread at h))
    | inl given ↦ elim (Bool-cases (is_unreadable w tc)) [
      | inl raised ↦ absurd (err_ne_ok (rw (given, raised) at h))
      | inr read ↦ elim (Bool-cases (is_gated w (policy_of w tc))) [
        | inl stop ↦ absurd (some_ne_none (rw (given, read, stop) at h))
        | inr free ↦
            (ungated tc mode free, first_gated-none rest mode (rw (given, read, free) at h))
      ]
    ]
  ]

  execute_tool-Leaves :
      (tc : RawCall) (sandbox_id : Option ℕ) (attempt_index : ℕ) (s : Session)
      → Free tc
      → Safe s
      → Leaves Safe (execute_tool w tc sandbox_id attempt_index s)
  unfolding execute_tool in_sandbox call_tool ask
  execute_tool-Leaves tc sandbox_id attempt_index s u h = elim (Result-cases (guard_input w tc)) [
    | inr (e, raised) ↦ rw raised (leaves _ _ h)
    | inl (true, bad) ↦ rw bad (leaves _ _ h)
    | inl (false, fine) ↦ rw fine (elim (Option-cases sandbox_id) [
      | inl missing ↦ rw (missing, in_sandbox) (leaves _ _ h)
      | inr (id, given) ↦
          rw (given, in_sandbox)
            (elim (Bool-cases w.has_execution_service) [
              | inl has ↦
                  rw has (leaves _ _ (asked (calls_tool id (tool_name tc) attempt_index) s u h))
              | inr without ↦ rw without (leaves _ _ h)
            ])
    ])
  ]

  dispatch_one-Leaves :
      (late : Bool) (tc : RawCall) (sandbox_id : Option ℕ) (attempt_index : ℕ) (others : Tx Turn)
      (s : Session)
      → Free tc
      → ((t : Session) → Safe t → Leaves Safe (others t))
      → Safe s
      → Leaves Safe (dispatch_one w late tc sandbox_id attempt_index others s)
  unfolding dispatch_one
  dispatch_one-Leaves true tc sandbox_id attempt_index others s u k h =
      Leaves-bind (k s h) (λ done t safe. leaves _ t safe)
  dispatch_one-Leaves false tc sandbox_id attempt_index others s u k h =
      Leaves-bind (execute_tool-Leaves tc sandbox_id attempt_index s u h)
        (λ r t safe. Leaves-bind (k t safe) (λ done t' safe'. leaves _ t' safe'))

  dispatch_tools-Leaves :
      (start budget_ms : ℕ) (sandbox_id : Option ℕ) (attempt_index : ℕ) (calls : List RawCall)
      (s : Session)
      → All Free calls
      → Safe s
      → Leaves Safe (dispatch_tools w start budget_ms sandbox_id attempt_index calls s)
  unfolding dispatch_tools
  dispatch_tools-Leaves start budget_ms sandbox_id attempt_index [] s u h = leaves _ _ h
  dispatch_tools-Leaves start budget_ms sandbox_id attempt_index (tc ∷ rest) s u h =
      dispatch_one-Leaves _ tc sandbox_id attempt_index _ _ u.0
        (λ t safe. dispatch_tools-Leaves start budget_ms sandbox_id attempt_index rest t u.1 safe) h

  -- A move, and what follows it.
  move-Leaves :
      {A B : Type 0} (f : A → Tx B) (r : Result A) (s : Session)
      → Safe s
      → ((a : A) (t : Session) → Safe t → Leaves Safe (f a t))
      → Leaves Safe (continue (r, s) f)
  move-Leaves f (ok a) s h k = k a s h
  move-Leaves f (err e) s h k = leaves _ s h
