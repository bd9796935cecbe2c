-- ===== src/Agents/Loop/Stops.antt =====
-- The early ends of the tool loop: application/loop_errors.py, gateway_errors.py and approval_gate.py.
use keviq_core.Prelude.{ℕ, ◌≡◌, refl, ap, ◌∙◌, String, Bool, List, str_eq, Bool-cases, inl, inr}
use keviq_core.Prelude.Tables
use keviq_core.Transaction.Returns.{Returns, returned, Returns-bind, Returns-step}
use keviq_core.Agents.Invocation.{AgentInvocation, InvocationStatus, Message, RawCall}
use keviq_core.Agents.Invocation.Lifecycle.{
  mark_failed-Moved, mark_timed_out-Moved, mark_waiting_human-Moved,
}
use keviq_core.Agents.Store.{Session, EventType}
use keviq_core.Agents.Tools.{World, Response}
use keviq_core.Agents.Contracts.{ExecutionRequest, LoopResult}
use keviq_core.Agents.Failures.{
  handle_budget_exhausted, handle_malformed_tools, handle_all_tools_failed, handle_gateway_error,
}
use keviq_core.Agents.Approvals.{pause, request_tool_approval}
use keviq_core.Agents.Loop.Replies.{
  IsSaved, save_with_event-Returns, is_waiting, is_failed, is_timed_out, is_out_of_budget, EndOk,
  IsRunning, Moved-Returns,
}

pub handle_budget_exhausted-Returns :
    (elapsed_ms budget_ms turns : ℕ) (r : LoopResult) (v : AgentInvocation) (s : Session)
    → IsRunning v
    → Returns (λ e s'. EndOk v.id e s') (handle_budget_exhausted elapsed_ms budget_ms turns r v s)
unfolding handle_budget_exhausted
handle_budget_exhausted-Returns elapsed_ms budget_ms turns r v s run =
    Moved-Returns _ _ (mark_timed_out-Moved v _ _ run) (λ u status id.
      Returns-bind (save_with_event-Returns u EventType.timed_out _)
        (λ _ t saved. returned _ _ (id, is_out_of_budget refl refl status, saved)))

pub handle_malformed_tools-Returns :
    (calls : List RawCall) (v : AgentInvocation) (s : Session)
    → IsRunning v
    → Returns (λ e s'. EndOk v.id e s') (handle_malformed_tools calls v s)
unfolding handle_malformed_tools
handle_malformed_tools-Returns calls v s run =
    Moved-Returns _ _ (mark_failed-Moved v _ _ (rw run)) (λ u status id.
      Returns-bind (save_with_event-Returns u EventType.failed _)
        (λ _ t saved. returned _ _ (id, is_failed refl status, saved)))

pub handle_all_tools_failed-Returns :
    (turns count : ℕ) (r : LoopResult) (v : AgentInvocation) (s : Session)
    → v.invocation_status ≡ InvocationStatus.waiting_tool
    → Returns (λ e s'. EndOk v.id e s') (handle_all_tools_failed turns count r v s)
unfolding handle_all_tools_failed
handle_all_tools_failed-Returns turns count r v s waits =
    Moved-Returns _ _ (mark_failed-Moved v _ _ (rw waits)) (λ u status id.
      Returns-bind (save_with_event-Returns u EventType.failed _)
        (λ _ t saved. returned _ _ (id, is_failed refl status, saved)))

module _ (w : World) where
  pub handle_gateway_error-Returns :
      (code : String) (retryable : Bool) (message : String) (v : AgentInvocation) (s : Session)
      → IsRunning v
      → Returns (λ e s'. EndOk v.id e s') (handle_gateway_error w code retryable message v s)
  unfolding handle_gateway_error
  handle_gateway_error-Returns code retryable message v s run =
      elim (Bool-cases (str_eq code "TIMEOUT")) [
        | inl late ↦ rw late (
            Moved-Returns _ _ (mark_timed_out-Moved v _ _ run) (λ u status id.
              Returns-bind (save_with_event-Returns u EventType.timed_out _)
                (λ _ t saved. returned _ _ (id, is_timed_out refl status, saved))))
        | inr other ↦ rw other (
            Moved-Returns _ _ (mark_failed-Moved v _ _ (rw run)) (λ u status id.
              Returns-bind (save_with_event-Returns u EventType.failed _)
                (λ _ t saved. returned _ _ (id, is_failed refl status, saved))))
      ]

  -- The request for an approval returns, and commits nothing.
  pub request_tool_approval-Returns :
      (id : ℕ) (name : String) (s : Session)
      → Returns (λ _ s'. s'.committed ≡ s.committed) (request_tool_approval w id name s)
  unfolding request_tool_approval
  request_tool_approval-Returns id name s = elim (Bool-cases w.has_approval_service) [
    | inl has ↦ rw has (returned _ _ refl)
    | inr without ↦ rw without (returned _ _ refl)
  ]

  pub IsSaved-same :
      (v : AgentInvocation) (s t : Session) → t.committed ≡ s.committed → IsSaved v s → IsSaved v t
  IsSaved-same v s t e h = record {
    row = h.row;
    found = ap (λ d. Tables.find (λ r. r.id) v.id d.invocations) e ∙ h.found;
    status = h.status;
    pending = h.pending;
  }

  pub pause-Returns :
      (q : ExecutionRequest) (calls : List RawCall) (messages : List Message) (response : Response)
      (tc : RawCall) (v : AgentInvocation) (s : Session)
      → IsRunning v
      → Returns (λ e s'. EndOk v.id e s') (pause w q calls messages response tc v s)
  unfolding pause
  pause-Returns q calls messages response tc v s run =
      let (m, pending) = mark_waiting_human-Moved v _ run in
      Returns-step _ _ s (ap (λ r. (r, s)) m.accepted) (
        Returns-bind (save_with_event-Returns m.after EventType.waiting_human s) (λ _ t saved.
          Returns-bind (request_tool_approval-Returns _ _ t) (λ approval t' same.
            returned _ _
              (m.id, is_waiting _ refl m.status pending, IsSaved-same m.after t t' same saved))))
