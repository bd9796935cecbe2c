-- ===== src/Agents/Loop/Replies.antt =====
-- What the caller is told, and what is stored of the invocation.
use keviq_core.Prelude.{ℕ, ◌≡◌, refl, ap, Option, none, some}
use mathlib.Core.Path.{subst}
use keviq_core.Prelude.Tables
use keviq_core.Errors.{Result}
use keviq_core.Transaction.Returns.{Returns, returned, Returns-step}
use keviq_core.Agents.Invocation.{AgentInvocation, InvocationStatus, Pending}
use keviq_core.Agents.Invocation.Lifecycle.{Moved}
use keviq_core.Agents.Store.{
  Session, Tx, continue, EventType, Payload, upsert, upserted, save_payload, save_with_event,
}
use keviq_core.Agents.Contracts.{
  ExecutionStatus, ExecutionResult, ExecutionFailure, Reply, succeeds, fails, exits, gathers, End,
}

-- The stored row of the invocation has its status and its pending context.
pub record IsSaved (v : AgentInvocation) (s : Session) : Type 0 where
  pub row : AgentInvocation
  pub found : Tables.find (λ r. r.id) v.id s.committed.invocations ≡ some row
  pub status : row.invocation_status ≡ v.invocation_status
  pub pending : row.pending_tool_context ≡ v.pending_tool_context

upserted_id :
    (v : AgentInvocation) (o : Option AgentInvocation)
    → ((old : AgentInvocation) → o ≡ some old → old.id ≡ v.id)
    → (upserted v o).id ≡ v.id
upserted_id v none h = refl
upserted_id v (some old) h = h old refl

upserted_status :
    (v : AgentInvocation) (o : Option AgentInvocation)
    → ((upserted v o).invocation_status ≡ v.invocation_status)
      × ((upserted v o).pending_tool_context ≡ v.pending_tool_context)
upserted_status v none = (refl, refl)
upserted_status v (some old) = (refl, refl)

pub save_payload-Returns :
    (v : AgentInvocation) (e : EventType) (p : Payload) (s : Session)
    → Returns (λ _ s'. IsSaved v s') (save_payload v e p s)
unfolding save_payload upsert
save_payload-Returns v e p s =
    let rows = s.committed.invocations in
    let row = upserted v (Tables.find (λ r. r.id) v.id rows) in
    returned _ _ record {
      row = row;
      found =
          Tables.find-save_self (λ r. r.id) v.id row rows
            (upserted_id v (Tables.find (λ r. r.id) v.id rows)
              (λ old e. Tables.key-find (λ r. r.id) v.id rows old e));
      status = (upserted_status v (Tables.find (λ r. r.id) v.id rows)).0;
      pending = (upserted_status v (Tables.find (λ r. r.id) v.id rows)).1;
    }

pub save_with_event-Returns :
    (v : AgentInvocation) (e : EventType) (s : Session)
    → Returns (λ _ s'. IsSaved v s') (save_with_event v e s)
unfolding save_with_event
save_with_event-Returns v e s = save_payload-Returns v e _ s

-- The reply and the stored status: a failure for want of time is reported as failed.
pub data Agrees : Reply → AgentInvocation → Type 0 where
  is_completed :
      {r : ExecutionResult} {v : AgentInvocation}
      → r.status ≡ ExecutionStatus.completed
      → v.invocation_status ≡ InvocationStatus.completed
      → Agrees (succeeds r) v
  is_waiting :
      {r : ExecutionResult} {v : AgentInvocation} (pending : Pending)
      → r.status ≡ ExecutionStatus.waiting_human
      → v.invocation_status ≡ InvocationStatus.waiting_human
      → v.pending_tool_context ≡ some pending
      → Agrees (succeeds r) v
  is_failed :
      {f : ExecutionFailure} {v : AgentInvocation}
      → f.status ≡ ExecutionStatus.failed
      → v.invocation_status ≡ InvocationStatus.failed
      → Agrees (fails f) v
  is_timed_out :
      {f : ExecutionFailure} {v : AgentInvocation}
      → f.status ≡ ExecutionStatus.timed_out
      → v.invocation_status ≡ InvocationStatus.timed_out
      → Agrees (fails f) v
  is_out_of_budget :
      {f : ExecutionFailure} {v : AgentInvocation}
      → f.status ≡ ExecutionStatus.failed
      → f.error_code ≡ "BUDGET_EXHAUSTED"
      → v.invocation_status ≡ InvocationStatus.timed_out
      → Agrees (fails f) v

-- An early end is stored and agrees; otherwise the invocation is still running.
abbrev pub EndOk : ℕ → End → Session → Type 0
EndOk id (exits reply, v) s = (v.id ≡ id) × Agrees reply v × IsSaved v s
EndOk id (gathers r, v) s = (v.id ≡ id) × (v.invocation_status ≡ InvocationStatus.running)

abbrev pub IsRunning : AgentInvocation → Type 0
IsRunning v = v.invocation_status ≡ InvocationStatus.running

-- A move that was accepted, and what follows it.
pub Moved-Returns :
    {A : Type 0} {Q : A → Session → Type 0} (f : InvocationStatus × AgentInvocation → Tx A)
    {v : AgentInvocation} {target : InvocationStatus}
    {out : Result (InvocationStatus × AgentInvocation)} (s : Session)
    → Moved v target out
    → ((u : AgentInvocation)
        → u.invocation_status ≡ target
        → u.id ≡ v.id
        → Returns Q (f (v.invocation_status, u) s))
    → Returns Q (continue (out, s) f)
Moved-Returns f {v = v} s m h =
    Returns-step f (v.invocation_status, m.after) s (ap (λ r. (r, s)) m.accepted)
      (h m.after m.status m.id)

-- What an end has to do with the invocation's identifier only.
pub EndOk-id : (a b : ℕ) (e : End) (s : Session) → a ≡ b → EndOk a e s → EndOk b e s
EndOk-id a b e s h k = subst (λ i. EndOk i e s) h k
