-- ===== src/Orchestrator/Approval/Lifecycle.antt =====
-- One decision for each approval request, and who is on record for it.
use keviq_core.Prelude.{
  ℕ, String, ◌≡◌, refl, Bool, true, false, Option, is_some, List, [], ◌∷◌, arith,
}
use keviq_core.Errors.{Result, ok, err}
use keviq_core.Orchestrator.Approval
use keviq_core.Orchestrator.Approval.{
  Approval, ApprovalDecision, ApprovalTargetType, pending, approved, rejected, timed_out, cancelled,
  approval_terminal,
}

pub data ApprovalCall : Type 0 where
  approves rejects : ℕ → Option String → ℕ → ℕ → ApprovalCall
  times_out cancels : ℕ → ApprovalCall

unfoldable pub call : ApprovalCall → Approval → Result (ApprovalDecision × Approval)
unfolding Approval.approve Approval.reject Approval.time_out Approval.cancel
call (approves by comment now now') = Approval.approve by comment now now'
call (rejects by comment now now') = Approval.reject by comment now now'
call (times_out now) = Approval.time_out now
call (cancels now) = Approval.cancel now

-- The decision that each method asks for.
abbrev pub target : ApprovalCall → ApprovalDecision
target (approves _ _ _ _) = approved
target (rejects _ _ _ _) = rejected
target (times_out _) = timed_out
target (cancels _) = cancelled

abbrev keep : Result (ApprovalDecision × Approval) → Approval → Approval
keep (ok (_, a')) a = a'
keep (err _) a = a

-- Any sequence of calls; one that raises changes nothing.
unfoldable pub calls : List ApprovalCall → Approval → Approval
unfolding call
calls [] a = a
calls (c ∷ cs) a = calls cs (keep (call c a) a)

keep-decided :
    (c : ApprovalCall) (a : Approval) → approval_terminal a.decision ≡ true → keep (call c a) a ≡ a
unfolding call
keep-decided c a h = ground arith

calls-decided :
    (cs : List ApprovalCall) (a : Approval) → approval_terminal a.decision ≡ true → calls cs a ≡ a
unfolding calls
calls-decided [] a h = refl
calls-decided (c ∷ cs) a h = rw (keep-decided c a h) (calls-decided cs a h)

keep-pending :
    (c : ApprovalCall) (a : Approval)
    → a.decision ≡ pending
    → ((keep (call c a) a).decision ≡ target c)
      × (approval_terminal (keep (call c a) a).decision ≡ true)
unfolding call
keep-pending c a h = (ground arith, ground arith)

-- The first call on a pending request decides it as that method says, and no later call changes
-- anything of the request.
pub calls-first :
    (c : ApprovalCall) (cs : List ApprovalCall) (a : Approval)
    → a.decision ≡ pending
    → ((calls (c ∷ cs) a).decision ≡ target c) × (calls (c ∷ cs) a ≡ calls (c ∷ []) a)
unfolding calls
calls-first c cs a h =
    let (decided, over) = keep-pending c a h in
    let same = calls-decided cs (keep (call c a) a) over in (rw same decided, same)

-- A person is on record.
abbrev pub was_reviewed : ApprovalDecision → Bool
was_reviewed approved = true
was_reviewed rejected = true
was_reviewed _ = false

pub record IsRecorded (a : Approval) : Type 0 where
  pub by : is_some a.decided_by_id ≡ was_reviewed a.decision
  pub at : is_some a.decided_at ≡ was_reviewed a.decision

new-IsRecorded :
    (fresh now workspace_id : ℕ) (type : ApprovalTargetType) (target_id : ℕ) (by : String)
    (reviewer : Option ℕ) (prompt : Option String) (a : Approval)
    → Approval.new fresh now workspace_id type target_id by reviewer prompt ≡ ok a
    → IsRecorded a
unfolding Approval.new
new-IsRecorded fresh now workspace_id type target_id by reviewer prompt a h = ground arith

keep-IsRecorded : (c : ApprovalCall) (a : Approval) → IsRecorded a → IsRecorded (keep (call c a) a)
unfolding call
keep-IsRecorded c a v = ground arith

pub calls-IsRecorded :
    (cs : List ApprovalCall) (a : Approval) → IsRecorded a → IsRecorded (calls cs a)
unfolding calls
calls-IsRecorded [] a v = v
calls-IsRecorded (c ∷ cs) a v = calls-IsRecorded cs (keep (call c a) a) (keep-IsRecorded c a v)

-- From creation on, whatever is called, a decider and a decision time are on record exactly when
-- the request is approved or rejected.
pub calls-new-IsRecorded :
    (cs : List ApprovalCall) (fresh now workspace_id : ℕ) (type : ApprovalTargetType)
    (target_id : ℕ) (by : String) (reviewer : Option ℕ) (prompt : Option String) (a : Approval)
    → Approval.new fresh now workspace_id type target_id by reviewer prompt ≡ ok a
    → IsRecorded (calls cs a)
calls-new-IsRecorded cs fresh now workspace_id type target_id by reviewer prompt a h =
    calls-IsRecorded cs a
      (new-IsRecorded fresh now workspace_id type target_id by reviewer prompt a h)
