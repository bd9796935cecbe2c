-- ===== src/Orchestrator/ApprovalHandlers/Decisions.antt =====
-- A decision on an approval request as one operation.
use keviq_core.Prelude.{
  ℕ, ◌+◌, ◌≡◌, sym, ap, ◌∙◌, inl, inr, true, false, Option, some, length, length-snoc, arith, ◌==◌,
  if◌then◌else◌, Option-cases,
}
use keviq_core.Prelude.Tables
use keviq_core.Errors.{Error, ok, err, Result-cases}
use keviq_core.Orchestrator.Approval.{Approval, ApprovalDecision, approval_terminal}
use keviq_core.Orchestrator.Session.{Session}
use keviq_core.Orchestrator.Repositories.{approval_at}
use keviq_core.Orchestrator.ApprovalHandlers.{DecideApproval, handle_decide_approval}

-- A decision that raises, be it that the target refuses to move, leaves every table and the outbox
-- as they were.
pub decide-atomic :
    (cmd : DecideApproval) (s : Session) (e : Error)
    → (handle_decide_approval cmd s).0 ≡ err e
    → ((handle_decide_approval cmd s).1.committed ≡ s.committed)
      × ((handle_decide_approval cmd s).1.db ≡ s.committed)
unfolding handle_decide_approval
decide-atomic cmd s e h = ground arith

module _ (cmd : DecideApproval) (s : Session) (a a' : Approval)
    (found : approval_at s.committed cmd.approval_id ≡ some a)
    (h : (handle_decide_approval cmd s).0 ≡ ok a') where
  before-decide : (a.workspace_id ≡ cmd.workspace_id) × (a.decision ≡ ApprovalDecision.pending)
  unfolding handle_decide_approval
  before-decide = ground arith

  result-decide :
      (approval_terminal a'.decision ≡ true)
      × (a'.decided_by_id ≡ some cmd.decided_by_id)
      × (a'.id ≡ a.id)
  unfolding handle_decide_approval
  result-decide = ground arith

  approvals-decide :
      (handle_decide_approval cmd s).1.committed.approvals
      ≡ Tables.save (λ q. q.id) a' s.committed.approvals
  unfolding handle_decide_approval
  approvals-decide = ground arith

  outbox-decide :
      length (handle_decide_approval cmd s).1.committed.outbox ≡ length s.committed.outbox + 1
  unfolding handle_decide_approval
  outbox-decide = grind (arith, length-snoc)

not_saved :
    (k : ℕ) (a' : Approval) (old : Option Approval) {id : ℕ}
    → a'.id ≡ id
    → (k == id) ≡ false
    → (if a'.id == k then some a' else old) ≡ old
not_saved k a' old e h = ground arith

not_both :
    (q a' : Approval)
    → some q ≡ some a'
    → q.decision ≡ ApprovalDecision.pending
    → approval_terminal a'.decision ≡ true
    → ⊥
not_both q a' e was over = ground arith

-- What is committed once a request is decided.
pub record Decided (cmd : DecideApproval) (s s' : Session) (a' : Approval) : Type 0 where
  pub was_pending :
      (a : Approval) × (approval_at s.committed cmd.approval_id ≡ some a)
      × (a.workspace_id ≡ cmd.workspace_id)
      × (a.decision ≡ ApprovalDecision.pending)
  pub over : approval_terminal a'.decision ≡ true
  pub by : a'.decided_by_id ≡ some cmd.decided_by_id
  pub stored : approval_at s'.committed cmd.approval_id ≡ some a'
  pub others :
      (k : ℕ)
      → (k == cmd.approval_id) ≡ false
      → approval_at s'.committed k ≡ approval_at s.committed k
  pub announced : length s'.committed.outbox ≡ length s.committed.outbox + 1

pub decide-Decided :
    (cmd : DecideApproval) (s : Session) (a' : Approval)
    → (handle_decide_approval cmd s).0 ≡ ok a'
    → Decided cmd s (handle_decide_approval cmd s).1 a'
unfolding handle_decide_approval
decide-Decided cmd s a' h = elim (Option-cases (approval_at s.committed cmd.approval_id)) [
  | inl e ↦ ground (arith, e, h)
  | inr (a, e) ↦
      let named : a.id ≡ cmd.approval_id =
        Tables.key-find (λ (x : Approval). x.id) cmd.approval_id s.committed.approvals a e in
      let (place, was) = before-decide cmd s a a' e h in
      let (over, by, same) = result-decide cmd s a a' e h in
      let table = approvals-decide cmd s a a' e h in
      record {
        was_pending = (a, e, place, was);
        over = over;
        by = by;
        stored = rw table (Tables.find-save_self (λ (x : Approval). x.id) _ a' _ (same ∙ named));
        others = λ k other. rw table (
            Tables.find-save (λ (x : Approval). x.id) k a' s.committed.approvals
            ∙ not_saved k a' _ (same ∙ named) other);
        announced = outbox-decide cmd s a a' e h;
      }
]

-- A request is decided once: after a decision that returns, every further one on the same request
-- raises, whatever it asks for, and leaves every table and the outbox as they were.
pub decide-once :
    (cmd cmd' : DecideApproval) (s : Session) (a' : Approval)
    → (handle_decide_approval cmd s).0 ≡ ok a'
    → cmd'.approval_id ≡ cmd.approval_id
    → let s' = (handle_decide_approval cmd s).1 in
      ((e : Error) × ((handle_decide_approval cmd' s').0 ≡ err e))
      × ((handle_decide_approval cmd' s').1.committed ≡ s'.committed)
decide-once cmd cmd' s a' h again =
    let s' = (handle_decide_approval cmd s).1 in
    let d = decide-Decided cmd s a' h in
    elim (Result-cases (handle_decide_approval cmd' s').0) [
      | inl (b, returns) ↦
          let (q, stored, place, was) = (decide-Decided cmd' s' b returns).was_pending in
          absurd
            (not_both q a' (sym stored ∙ ap (approval_at s'.committed) again ∙ d.stored) was d.over)
      | inr (e, raises) ↦ ((e, raises), (decide-atomic cmd' s' e raises).0)
    ]
